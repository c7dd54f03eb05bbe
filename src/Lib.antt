-- ===== src/Lib.antt =====
-- afpfs-ng: the client library for the Apple Filing Protocol (AFP 2.x and 3.x over TCP), its C code
-- in afpfs-ng/lib and afpfs-ng/include.
--
-- The parts, from the bottom. A request is a packed struct that an afp_* function fills and
-- `dsi_send` writes to the server's socket behind a DSI header; the reply is matched by its number
-- to the sender, which waits in a queue. Above it, a volume keeps a cache of directory IDs, the
-- list of open forks and the mapping of users; the ll_* functions turn file operations into
-- requests.
--
-- Common      helpers: Boolean tests on the native numbers (Common/Tests), lists (Common/Lists),
--             the results of calls (Common/Ints) and memory (Common/Memory)
-- Wire        integers in network byte order and readers of bytes; Wire/Laws has their laws
-- Names       afpfs-ng/lib/utils.c: `copy_path`, `unixpath_to_afppath`, the Pascal strings and
--             `invalid_filename`; Names/Paths reads paths back, Names/Limits is about their parts
-- Proto       afpfs-ng/lib/proto_*.c, the requests byte for byte: Proto/Codes has the constants of
--             afpfs-ng/include/afp_protocol.h, Proto/Files, Proto/Forks, Proto/Dirs and
--             Proto/Volumes one function for each afp_* function; Proto/Calls makes them
--             constructors of one type; Proto/Peer reads them as the AFP reference lays them out;
--             Proto/Session has the requests of afpfs-ng/lib/proto_login.c, proto_session.c and
--             proto_attr.c
-- Dsi         afpfs-ng/lib/dsi.c: Dsi/Server is the state and the numbering, Dsi/Frame the header,
--             Dsi/Stream a session's bytes, Dsi/Queue `dsi_send` cut at its wait and the end of
--             `dsi_recv`, with `afp_server_connect` and `afp_server_reconnect` of
--             afpfs-ng/lib/afp.c, Dsi/Pending all interleavings of these as a step relation,
--             Dsi/Waiters who gets a reply; Dsi/Receive is `dsi_recv`, Dsi/Calls has the laws of
--             its calls, Dsi/Turns lemmas on pieces, Dsi/Pieces and Dsi/Overrun are about packets
--             in pieces; Dsi/Status has the handlers of the status, of the opening of a session
--             and of attentions, with the names of methods (afpfs-ng/lib/uams_def.c), Dsi/Versions
--             is about the versions of a status
-- Auth        afpfs-ng/lib/uams.c: the table of methods and the requests of the first three
-- Volume      the state above the requests: `struct afp_volume` with its server
--             (afpfs-ng/include/afp.h); Volume/Users is afpfs-ng/lib/users.c, Volume/Forks is
--             afpfs-ng/lib/forklist.c
-- Did         afpfs-ng/lib/did.c: Did/Cache is the cache, Did/Sound its laws, Did/Lookup
--             `get_dirid`, Did/Walk what it resolves
-- Codepage    afpfs-ng/lib/codepage.c: names between Unix and AFP; Codepage/Compose is about them
-- Replies     afpfs-ng/lib/proto_replyblock.c: Replies/Block is `parse_reply_block`,
--             Replies/Layout the parameters as the AFP reference lays them out, Replies/Read what
--             the client makes of them. The *_reply functions of afpfs-ng/lib/proto_*.c:
--             Replies/Packet is what they are given, Replies/Lists has the listings of
--             directories, Replies/Volumes the parameters of volumes with `afp_volopen`,
--             Replies/Handlers the others; Replies/Entries lays out listings, Replies/VolumeParams
--             volumes
-- Server      afpfs-ng/lib/afp.c: the choice of a version and a method of authentication and the
--             results of a login; Server/Mounts has unmounting and the list of servers;
--             Server/Picked is about the choices, Server/Unmounts about unmounting; Server/Connect
--             is the opening of a volume and afpfs-ng/lib/identify.c
-- Url         afpfs-ng/lib/afp_url.c: the searches and checks; Url/Parse is `afp_parse_url` and
--             `afp_url_validate`, Url/Scan has lemmas on scanning, Url/Fields on the parts,
--             Url/RoundTrip is about URLs that are written in full, Url/Stuck about the search for
--             a colon
-- LowLevel    afpfs-ng/lib/lowlevel.c: LowLevel/Locks, LowLevel/Transfer (`ll_read`, `ll_write`),
--             LowLevel/Entry, LowLevel/Attr (`ll_getattr`), LowLevel/Listing (`ll_readdir`) and
--             LowLevel/Opening (`ll_open`); LowLevel/Stored, LowLevel/Wrapped and
--             LowLevel/Release are about transfers, LowLevel/Batches is about listings, LowLevel/Unguarded about opening on
--             read-only volumes
-- Resource    afpfs-ng/lib/resource.c: Resource/Translate has the names below `.AppleDouble`,
--             Resource/Refuse the operations they do not have, Resource/Opening how they are
--             opened and truncated, Resource/Content reads, writes and attributes; Resource/Names
--             is about the names
-- MidLevel    afpfs-ng/lib/midlevel.c: MidLevel/Guards has the tests at the start of the
--             operations, MidLevel/Privs `set_unixprivs`, MidLevel/Create, MidLevel/Remove,
--             MidLevel/Change, MidLevel/Rename, MidLevel/Opened, MidLevel/Closing,
--             MidLevel/Content and MidLevel/Links the operations `afp_ml_*`; MidLevel/Written is
--             about writes, MidLevel/Refused, MidLevel/ReadOnly and MidLevel/Metadata are about
--             refusals
-- Tests       the theorems at concrete inputs
--
-- Above the requests, a function takes the volume and gives its result with the new volume, which
-- records the requests made; the server's replies and the clock are a parameter (`World`), any
-- function of the requests so far. The request functions give the bytes behind the DSI header.
--
-- Fuel. `write_chunks` gets the number of bytes, enough since each round takes one at least where
-- the largest packet is not 0; with 0 the source loops forever. `walk` gets the length of the rest
-- of the path and `cached_parent` the length of the path, which shorten in every round. `try_lock`
-- counts the source's own rounds. `read_batches` and `try_open` send a request in every round, and
-- the server decides when they end: their fuel is a bound on the rounds, and `none` a loop that
-- goes on. A round of `escape_strrchr` returns, or comes to the same place again: a fuel of 1 is
-- enough where it returns; `none` is a loop that goes on, and `lost` is that or a URL that does not
-- fit its buffers. A call of `dsi_recv` ends; `receive` gets a turn for each call, and as many as the packet has bytes are enough.
--
-- Integers are natural numbers, with the wrap-around of a field or a narrow parameter written out
-- where it is filled. An address that code compares is a number in the struct (`ptr`).
--
-- System constants (S_IFDIR, S_IFREG, the permission bits) have their values on Unix.
--
-- Not modelled: how `dsi_command_reply` calls a handler by its number (the *_reply functions and
-- the packets of `dsi_recv` are modelled on their own, and `World` answers with what the handlers
-- store), what closing a session and a tickle send, and the requests of `dsi_getstatus` and
-- `dsi_opensession`; the methods of authentication that exchange keys or numbers both ways, with
-- the calls through their table; the searches for a server, and what follows a new connection in a
-- reconnection of afpfs-ng/lib/afp.c (the session, the login and the volumes); `afp_closedt`, which
-- sends an address, `afp_listextattrs_reply` and `afp_changepassword_reply`; `appledouble_readdir`,
-- which walks freed nodes, `afp_ml_readdir`, which calls it, and `afp_ml_passwd`;
-- afpfs-ng/lib/unicode.c, which is adopted from another project and a parameter (`Unicode`); the
-- overflow of buffers for names and texts, but for those of a URL and the one that `dsi_recv` reads
-- into; sockets, the event loop, logging; the FUSE, command line and KDE front ends.
pub mod Common
pub mod Wire
pub mod Names
pub mod Proto
pub mod Dsi
pub mod Codepage
pub mod Volume
pub mod Server
pub mod Auth
pub mod Url
pub mod Replies
pub mod Did
pub mod Resource
pub mod LowLevel
pub mod MidLevel
pub mod Tests
