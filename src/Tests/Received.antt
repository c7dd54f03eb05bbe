-- ===== src/Tests/Received.antt =====
-- Packets in pieces, versions and a write.
use afpfs_ng.Codepage.{convert_path_to_afp}
use afpfs_ng.Common.{
  ◌≡◌, refl, List, [], ◌∷◌, ◌++◌, Bytes, some, arith, replicate, length, take, ◌⊎◌, inl, val,
}
use afpfs_ng.Dsi.Calls.{IsHeader, receive}
use afpfs_ng.Dsi.Frame.{Header, header_bytes}
use afpfs_ng.Dsi.Overrun.{dsi_recv-over}
use afpfs_ng.Dsi.Pieces.{receive-header_bytes}
use afpfs_ng.Dsi.Queue.{dsi_find_request, reply_arrived}
use afpfs_ng.Dsi.Receive.{Receiver, complete, command, noted, dsi_recv}
use afpfs_ng.Dsi.Server.{Request, Server}
use afpfs_ng.Dsi.Status.{dsi_parse_versions}
use afpfs_ng.Dsi.Versions.{Numbers, name_list, dsi_parse_versions-Numbers}
use afpfs_ng.LowLevel.Stored.{put, stored}
use afpfs_ng.MidLevel.Content.{afp_ml_write}
use afpfs_ng.MidLevel.Written.{afp_ml_write-stored}
use afpfs_ng.Names.{invalid_filename}
use afpfs_ng.Resource.Content.{returned}
use afpfs_ng.Tests.Data.{file, volume, granting, server, waiting_request}

abbrev query : Request
query = record waiting_request { subcommand = 34 }

abbrev asked : Server
asked = record server { command_requests = query ∷ [] }

abbrev receiver : Receiver
receiver = record {
  server = asked;
  incoming = [];
  data_read = 0;
  bufsize = 64;
  rx_of = λ ptr. record { size = 0; maxsize = 0; contents = [] };
  rx_bytes = 0;
  runt_packets = 0;
}

abbrev header : Header
header = record { flags = 1; command = 2; requestid = 9; return_code = 5; size = 2; reserved = 0 }

header-IsHeader : IsHeader header
header-IsHeader = record {
  flags = omega arith;
  command = omega arith;
  requestid = omega arith;
  return_code = omega arith;
  size = omega arith;
  reserved = omega arith;
}

receive-header_bytes_example :
    let packet = header_bytes header ++ (7 ∷ 8 ∷ []) in
    let (end, outcome, left) = receive (replicate 18 5) receiver packet in
    (outcome ≡ complete (some (command (record query { return_code = 5 }) packet)))
    × (left ≡ [])
    × (end.data_read ≡ 0)
    × (end.server ≡ reply_arrived (noted header asked) 9 5)
unfolding dsi_find_request
receive-header_bytes_example =
    receive-header_bytes header (7 ∷ 8 ∷ []) receiver query (replicate 18 5) header-IsHeader refl
      (omega arith) refl (inl refl) refl refl (ground arith) (omega arith)

dsi_recv-over_example :
    let have = header_bytes header ++ (7 ∷ []) in
    let (end, outcome, left) =
      dsi_recv
        (record receiver { incoming = have ++ []; data_read = length have })
        (some (8 ∷ 1 ∷ 2 ∷ [])) in
    (outcome ≡ complete (some (command (record query { return_code = 5 }) (have ++ (8 ∷ 1 ∷ [])))))
    × (left ≡ some (2 ∷ []))
    × (end.data_read ≡ 18)
unfolding dsi_find_request
dsi_recv-over_example =
    dsi_recv-over header (7 ∷ []) 8 [] (1 ∷ 2 ∷ []) [] receiver query header-IsHeader refl
      (omega arith) (inl refl) refl refl (omega arith) (omega arith)

abbrev listed : List Bytes
listed = (b'A' ∷ b'F' ∷ b'P' ∷ b'3' ∷ b'.' ∷ b'1' ∷ []) ∷ (b'A' ∷ b'F' ∷ b'P' ∷ b'X' ∷ []) ∷ []

dsi_parse_versions-Numbers_example :
    Numbers listed (dsi_parse_versions (2 ∷ (name_list listed ++ (0 ∷ []))))
dsi_parse_versions-Numbers_example =
    dsi_parse_versions-Numbers listed (0 ∷ []) (ground arith) (omega arith)

afp_ml_write-stored_example :
    let r = afp_ml_write granting (b'/' ∷ b'm' ∷ []) (1 ∷ 2 ∷ 3 ∷ []) 10 file 501 20 volume in
    let n = r.0.totalwritten in
    (r.0.ret ≡ returned (val n))
    × ((n ≡ 0) ⊎ (n ≡ 3))
    × (stored 7 r.1.sent (λ i. 0) 12 ≡ put 10 (take n (1 ∷ 2 ∷ 3 ∷ [])) (λ i. 0) 12)
unfolding convert_path_to_afp invalid_filename stored
afp_ml_write-stored_example =
    afp_ml_write-stored granting file (1 ∷ 2 ∷ 3 ∷ []) 10 501 20 (b'/' ∷ b'm' ∷ [])
      (b'/' ∷ b'm' ∷ []) volume (λ i. 0) 12 refl refl refl (omega arith) (omega arith) (omega arith)
      (omega arith)
