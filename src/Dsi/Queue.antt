-- ===== src/Dsi/Queue.antt =====
-- The request queue of lib/dsi.c. `dsi_send` is cut where it waits: `send_start` runs up to the
-- wait, other threads run, and `send_end` runs from there. What the system does is an argument.
use afpfs_ng.Common.{
  ℕ, ◌+◌, ◌-◌, List, [], ◌∷◌, ◌++◌, Bool, true, false, not, ◌||◌, Option, none, some, ◌==◌,
  if◌then◌else◌,
}
use afpfs_ng.Dsi.Server.{Request, Server, Wait, dont_wait}

-- What `write` to the server's socket gives: all written, a closed connection (EPIPE, EBADF), or
-- another error.
pub data Written : Type 0 where
  all_written closed failed : Written

-- Why the wait of `dsi_send` ended.
pub data Woken : Type 0 where
  signalled timed_out : Woken

-- Where `dsi_send` is: it has returned, it waits with its request, or it is stuck on `send_mutex`.
pub data Sending : Type 0 where
  returned : Option ℕ → Sending
  waiting : Request → Sending
  deadlocked : Sending

-- The unlinking of the loop in `dsi_remove_from_request_queue`.
unfoldable pub unlink : ℕ → List Request → List Request
unlink ptr [] = []
unlink ptr (p ∷ ps) = if p.ptr == ptr then ps else p ∷ unlink ptr ps

unfoldable pub is_queued : ℕ → List Request → Bool
is_queued ptr [] = false
is_queued ptr (p ∷ ps) = p.ptr == ptr || is_queued ptr ps

-- True for the result 0; false for -1.
unfoldable pub dsi_remove_from_request_queue : Server → ℕ → Server × Bool
dsi_remove_from_request_queue s toremove =
    if not s.valid
    then (s, false)
    else if is_queued toremove s.command_requests
    then (
      record s {
        command_requests = unlink toremove s.command_requests;
        requests_pending = s.requests_pending - 1;
      },
      true,
    )
    else (s, false)

-- The first request with this number.
unfoldable pub dsi_find_request : List Request → ℕ → Option Request
dsi_find_request [] request_id = none
dsi_find_request (p ∷ ps) request_id =
    if p.requestid == request_id then some p else dsi_find_request ps request_id

abbrev new_request : Server → Wait → ℕ → Request
new_request s wait subcommand = record {
  ptr = s.next_ptr;
  requestid = s.lastrequestid;
  subcommand = subcommand;
  wait = wait;
  done_waiting = false;
  return_code = 0;
}

-- "Add request to the queue".
unfoldable pub enqueue : Server → Wait → ℕ → Server
enqueue s wait subcommand = record s {
  command_requests = s.command_requests ++ (new_request s wait subcommand ∷ []);
  requests_pending = s.requests_pending + 1;
  next_ptr = s.next_ptr + 1;
}

-- From the write on. A closed connection returns at once: the request stays, and the mutex.
unfoldable pub send_written : Server → Request → ℕ → Written → Server × Sending
send_written s r size all_written =
    (record s { tx_bytes = s.tx_bytes + size; send_locked = false }, waiting r)
send_written s r size closed = (record s { connected = false; send_locked = true }, returned none)
send_written s r size failed =
    ((dsi_remove_from_request_queue (record s { send_locked = false }) r.ptr).0, returned none)

-- What `socket` and `connect` give: no socket, a socket that is not connected, or a connected one.
pub data Connecting : Type 0 where
  no_socket : Connecting
  refused accepted : (fd : ℕ) → Connecting

-- `afp_server_connect(server,0)` (lib/afp.c); true for the result 0. The `fd` is -1 without a
-- socket, here its bits. `add_server` puts the server onto the list in which `server_still_valid`
-- looks.
unfoldable pub afp_server_connect : Connecting → Server → Server × Bool
afp_server_connect no_socket s = (record s { fd = 4294967295 }, false)
afp_server_connect (refused fd) s = (record s { fd = fd }, false)
afp_server_connect (accepted fd) s =
    (record s { fd = fd; lastrequestid = 0; connected = true; valid = true }, true)

-- `afp_server_reconnect`. What follows a connection (the opening of a session, the login and the
-- volumes) calls `dsi_send` again, and is a parameter; where it is stuck on `send_mutex`, it stands
-- for what returns with the mutex held.
unfoldable pub afp_server_reconnect : Connecting → (resume : Server → Server) → Server → Server
unfolding afp_server_connect
afp_server_reconnect c resume s =
    let connected = afp_server_connect c s in
    if connected.1 then resume connected.0 else connected.0

-- "Try and reconnect": `reconnect` is an `afp_server_reconnect`, whose result is not looked at.
unfoldable pub ensure_connected : (Server → Server) → Server → Server
ensure_connected reconnect s = if s.connected then s else reconnect s

-- Taking `send_mutex`, and the write.
unfoldable pub send_locking : Server → Request → ℕ → Written → Server × Sending
send_locking s r size w = if s.send_locked then (s, deadlocked) else send_written s r size w

-- `dsi_send` up to its wait. `none` stands for -1.
unfoldable pub send_start : (Server → Server) → Server → Wait → ℕ → ℕ → Written → Server × Sending
send_start reconnect s wait subcommand size w =
    if not s.valid || s.fd == 0
    then (s, returned none)
    else send_locking (ensure_connected reconnect (enqueue s wait subcommand))
        (new_request s wait subcommand) size w

-- ETIMEDOUT of the system.
abbrev etimedout : ℕ
etimedout = 110

-- The request as it stands in the queue: the reply has been written into it.
unfoldable pub current : List Request → Request → Request
current [] r = r
current (p ∷ ps) r = if p.ptr == r.ptr then p else current ps r

-- The rest of `dsi_send`, with its result.
unfoldable pub send_end : Server → Request → Woken → Server × ℕ
unfolding current
send_end s r woken =
    let done = (dsi_remove_from_request_queue s r.ptr).0 in
    elim woken [
      | timed_out ↦ (done, etimedout)
      | signalled ↦ (done, (current s.command_requests r).return_code)
    ]

-- `wait` is nonzero.
abbrev pub does_wait : Wait → Bool
does_wait dont_wait = false
does_wait _ = true

-- The writes of `dsi_recv` to the request that it found.
unfoldable pub answer : ℕ → ℕ → List Request → List Request
answer ptr code [] = []
answer ptr code (p ∷ ps) =
    if p.ptr == ptr
    then record p { wait = dont_wait; done_waiting = true; return_code = code } ∷ ps
    else p ∷ answer ptr code ps

-- `dsi_recv` on the queue, for a whole reply with this number and result: the waiting thread is
-- signalled, or a request that nobody waits for is removed.
unfoldable pub reply_arrived : Server → ℕ → ℕ → Server
unfolding answer
reply_arrived s requestid code = elim (dsi_find_request s.command_requests requestid) [
  | none ↦ s
  | some r ↦
      if does_wait r.wait
      then record s { command_requests = answer r.ptr code s.command_requests }
      else (dsi_remove_from_request_queue s r.ptr).0
]
