-- ===== src/Proto.antt =====
-- lib/proto_*.c: the AFP requests behind the DSI header. The functions of the children write the
-- packed structs of the source field by field; Proto.Peer reads them as the AFP reference does.
pub mod Codes
pub mod Files
pub mod Forks
pub mod Dirs
pub mod Volumes
pub mod Calls
pub mod Session
pub mod Peer
pub mod RoundTrip
