-- ===== src/Dsi/Server.antt =====
-- The fields of `struct afp_server` (include/afp.h) and `struct dsi_request` (include/dsi.h) that
-- lib/dsi.c works on, and the numbering of requests.
use afpfs_ng.Common.{ℕ, ◌+◌, List, Bool, ◌==◌, if◌then◌else◌}

-- `wait` of a request: DSI_BLOCK_TIMEOUT, DSI_DONT_WAIT, or a number of seconds above 0.
pub data Wait : Type 0 where
  block dont_wait : Wait
  seconds : ℕ → Wait

-- `ptr` is the address of the allocated struct.
pub record Request : Type 0 where
  pub ptr : ℕ
  pub requestid : ℕ
  pub subcommand : ℕ
  pub wait : Wait
  pub done_waiting : Bool
  pub return_code : ℕ

-- `valid` is what `server_still_valid` finds; `next_ptr` is the next address that `malloc` gives.
-- `send_locked` tells that `send_mutex` is held.
pub record Server : Type 0 where
  pub valid : Bool
  pub fd : ℕ
  pub connected : Bool
  pub send_locked : Bool
  pub lastrequestid : ℕ
  pub expectedrequestid : ℕ
  pub command_requests : List Request
  pub requests_pending : ℕ
  pub tx_bytes : ℕ
  pub next_ptr : ℕ

-- The number of the request after number `last`.
unfoldable pub next_requestid : ℕ → ℕ
next_requestid last = if last == 65535 then 0 else last + 1

-- `dsi_setup_header` on the server; the header's fields are in Frame.
unfoldable pub dsi_setup_header : Server → Server
dsi_setup_header s = record s {
  lastrequestid = next_requestid s.lastrequestid;
  expectedrequestid = next_requestid s.lastrequestid;
}
