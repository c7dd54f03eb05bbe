-- ===== src/Tests/Wires.antt =====
-- Paths, requests, frames and the request queue.
use afpfs_ng.Common.{
  ◌+◌, ◌%◌, ◌≤◌, [], ◌∷◌, ◌++◌, Bytes, false, some, none, ◌≡◌, ◌≢◌, ◌↔◌, refl, arith, length, All,
  drop,
}
use afpfs_ng.Dsi.Frame.{Message, IsSendable, announced}
use afpfs_ng.Dsi.Pending.{IsConsistent, here, next, setup, start, reply, Reach-IsConsistent}
use afpfs_ng.Dsi.Queue.{
  no_socket, accepted, afp_server_reconnect, all_written, closed, signalled, dsi_find_request,
  returned, deadlocked, send_end, send_start, reply_arrived,
}
use afpfs_ng.Dsi.Server.{block, Server, dsi_setup_header}
use afpfs_ng.Dsi.Stream.{stream, read_frames, read_frames-stream}
use afpfs_ng.Dsi.Waiters.{after, requestid-after, send_end-reply_arrived, send_start-closed}
use afpfs_ng.Names.{long_name, short_name, afp_path, sizeof_path_header, invalid_filename, max_name}
use afpfs_ng.Names.Limits.{parts, invalid_filename-parts}
use afpfs_ng.Names.Paths.{IsPath, read_path, read_path-afp_path, length-afp_path}
use afpfs_ng.Proto.Calls.{Call, create_file}
use afpfs_ng.Tests.Data.{server, waiting_request, other_request}

abbrev path : Bytes
path = b'/' ∷ b'd' ∷ b'/' ∷ b'f' ∷ []

path-IsPath : IsPath path
path-IsPath = record { short = omega arith; no_zero = ground arith }

long_ne : long_name ≢ short_name
long_ne = grind arith

abbrev creation : Call
creation = create_file 1 0 2 path

read_path-afp_path_example :
    read_path long_name (afp_path long_name path ++ (b'x' ∷ [])) ≡ some (path, b'x' ∷ [])
read_path-afp_path_example = read_path-afp_path long_name path (b'x' ∷ []) long_ne path-IsPath

length-afp_path_example : length (afp_path long_name path) ≡ sizeof_path_header long_name + 4
length-afp_path_example = length-afp_path long_name path long_ne (omega arith)

invalid_filename-parts_example :
    (invalid_filename 22 long_name path ≡ false)
    ↔ All (λ part. length part ≤ max_name 22 long_name) (parts (drop 1 path))
invalid_filename-parts_example = invalid_filename-parts 22 long_name path

abbrev first : Message
first = record { requestid = 1; command = 2; data_offset = 0; body = 8 ∷ 0 ∷ [] }

abbrev second : Message
second = record { requestid = 2; command = 6; data_offset = 12; body = 33 ∷ [] }

first-IsSendable : IsSendable first
first-IsSendable = record {
  requestid = omega arith;
  command = omega arith;
  data_offset = omega arith;
  body = omega arith;
}

second-IsSendable : IsSendable second
second-IsSendable = record {
  requestid = omega arith;
  command = omega arith;
  data_offset = omega arith;
  body = omega arith;
}

read_frames-stream_example :
    read_frames 2 (stream (first ∷ second ∷ []))
    ≡ some ((announced first, 8 ∷ 0 ∷ []) ∷ (announced second, 33 ∷ []) ∷ [])
read_frames-stream_example =
    read_frames-stream (first ∷ second ∷ []) (first-IsSendable, (second-IsSendable, tt))

server-IsConsistent : IsConsistent server
server-IsConsistent = record { counted = refl; fresh = ground arith }

abbrev same : Server → Server
same s = s

abbrev numbered : Server
numbered = dsi_setup_header server

abbrev started : Server
started = (send_start same numbered block 27 30 all_written).0

Reach-IsConsistent_example : IsConsistent (reply_arrived started 9 0)
Reach-IsConsistent_example =
    Reach-IsConsistent same (λ s c. c)
      (next (next (next here (setup server)) (start numbered block 27 30 all_written))
        (reply started 9 0))
      server-IsConsistent

send_end-reply_arrived_example :
    ((send_end (reply_arrived server 9 5) waiting_request signalled).1 ≡ 5)
    × ((send_end (reply_arrived server 9 5) other_request signalled).1
        ≡ (send_end server other_request signalled).1)
unfolding dsi_find_request
send_end-reply_arrived_example =
    send_end-reply_arrived server waiting_request waiting_request other_request 5 refl refl refl
      (ground arith)

requestid-after_example : (after 3 server).lastrequestid ≡ (10 + 3) % 65536
requestid-after_example = requestid-after 3 server (omega arith)

send_start-closed_example :
    let again = afp_server_reconnect (accepted 6) same in
    let first = send_start (afp_server_reconnect no_socket same) server block 27 30 closed in
    (first.1 ≡ returned none) × ((send_start again first.0 block 8 20 all_written).1 ≡ deadlocked)
send_start-closed_example =
    send_start-closed no_socket (accepted 6) same server block block 27 30 8 20 all_written
      (λ t h. h) refl refl refl
