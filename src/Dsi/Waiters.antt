-- ===== src/Dsi/Waiters.antt =====
-- Replies find their senders; numbers do not repeat before they wrap; and what a closed connection
-- leaves behind.
use afpfs_ng.Common.{
  ℕ, zero, suc, ◌+◌, ◌%◌, ◌<◌, ◌≡◌, ◌≢◌, refl, ap, sym, List, [], ◌∷◌, true, false, not, ◌||◌,
  arith, ◌==◌, some, none,
}
use afpfs_ng.Dsi.Queue.{
  Connecting, no_socket, refused, accepted, afp_server_reconnect, Written, closed, signalled,
  deadlocked, returned, does_wait, current, answer, dsi_find_request, send_end, send_start,
  reply_arrived, send_locking, send_written, ensure_connected, enqueue,
}
use afpfs_ng.Dsi.Server.{Request, Server, Wait, next_requestid, dsi_setup_header}

-- The server after `n` more requests have been numbered.
abbrev pub after : ℕ → Server → Server
after zero s = s
after (suc n) s = after n (dsi_setup_header s)

-- Requests are numbered in turn modulo 65536: after `n` more of them the last number is `n` further
-- on.
pub requestid-after :
    (n : ℕ) (s : Server)
    → s.lastrequestid < 65536
    → (after n s).lastrequestid ≡ (s.lastrequestid + n) % 65536
unfolding dsi_setup_header next_requestid
requestid-after zero s h = omega arith
requestid-after (suc n) s h = ground (arith, requestid-after n (dsi_setup_header s))

current-answer :
    (code : ℕ) (ps : List Request) (r q : Request) (requestid : ℕ)
    → dsi_find_request ps requestid ≡ some r
    → r.ptr ≡ q.ptr
    → (current (answer r.ptr code ps) q).return_code ≡ code
unfolding current answer dsi_find_request
current-answer code [] r q requestid h e = cc
current-answer code (p ∷ ps) r q requestid h e =
    ground (arith, current-answer code ps r q requestid)

current-answer_ne :
    (ptr code : ℕ) (ps : List Request) (q : Request)
    → q.ptr ≢ ptr
    → current (answer ptr code ps) q ≡ current ps q
unfolding current answer
current-answer_ne ptr code [] q ne = refl
current-answer_ne ptr code (p ∷ ps) q ne = ground (arith, current-answer_ne ptr code ps q ne)

-- A reply goes to the first request with its number. If a thread waits for that one, its `dsi_send`
-- returns the result that the reply carries, and the result of every other `dsi_send` is the same
-- as before the reply.
pub send_end-reply_arrived :
    (s : Server) (r q other : Request) (code : ℕ)
    → dsi_find_request s.command_requests r.requestid ≡ some r
    → does_wait r.wait ≡ true
    → q.ptr ≡ r.ptr
    → other.ptr ≢ r.ptr
    → ((send_end (reply_arrived s r.requestid code) q signalled).1 ≡ code)
      × ((send_end (reply_arrived s r.requestid code) other signalled).1
          ≡ (send_end s other signalled).1)
unfolding send_end reply_arrived
send_end-reply_arrived s r q other code found waits e ne = (
  rw (found, reply_arrived)
      (rw waits (current-answer code s.command_requests r q r.requestid found (sym e))),
  rw (found, reply_arrived)
      (rw waits (
        ap (λ (p : Request). p.return_code)
          (current-answer_ne r.ptr code s.command_requests other ne))),
)

-- What does not free the mutex.
abbrev pub HoldsLock : (Server → Server) → Type 0
HoldsLock f = (t : Server) → t.send_locked ≡ true → (f t).send_locked ≡ true

-- The server is known and has a socket.
abbrev pub IsUsable : Server → Type 0
IsUsable s = (not s.valid || s.fd == 0) ≡ false

reconnect-HoldsLock :
    (c : Connecting) (resume : Server → Server)
    → HoldsLock resume
    → HoldsLock (afp_server_reconnect c resume)
unfolding afp_server_reconnect
reconnect-HoldsLock no_socket resume holds t locked = locked
reconnect-HoldsLock (refused fd) resume holds t locked = locked
reconnect-HoldsLock (accepted fd) resume holds t locked =
    holds (record t { fd = fd; lastrequestid = 0; connected = true; valid = true }) locked

send_start_locked :
    (reconnect : Server → Server) (s : Server) (w : Wait) (sub size : ℕ) (written : Written)
    → HoldsLock reconnect
    → IsUsable s
    → s.send_locked ≡ true
    → (send_start reconnect s w sub size written).1 ≡ deadlocked
unfolding send_start send_locking ensure_connected enqueue
send_start_locked reconnect s w sub size written holds usable locked =
    ground (arith, holds (enqueue s w sub) locked)

send_start_closed :
    (reconnect : Server → Server) (s : Server) (w : Wait) (sub size : ℕ)
    → IsUsable s
    → s.connected ≡ true
    → s.send_locked ≡ false
    → let (t, first) = send_start reconnect s w sub size closed in
      (first ≡ returned none) × (t.send_locked ≡ true) × IsUsable t
unfolding send_start send_locking send_written ensure_connected enqueue
send_start_closed reconnect s w sub size usable connected free = ground arith

-- On a server that counts as connected, after a write that finds the connection closed, `dsi_send`
-- returns -1 with `send_mutex` held, so that a next `dsi_send` to the server is stuck, whatever it
-- sends and whatever its attempt to reconnect gives, if what follows a new connection does not free
-- the mutex.
pub send_start-closed :
    (c c' : Connecting) (resume : Server → Server) (s : Server) (w w' : Wait)
    (sub size sub' size' : ℕ) (written : Written)
    → HoldsLock resume
    → IsUsable s
    → s.connected ≡ true
    → s.send_locked ≡ false
    → let (t, first) = send_start (afp_server_reconnect c resume) s w sub size closed in
      (first ≡ returned none)
      × ((send_start (afp_server_reconnect c' resume) t w' sub' size' written).1 ≡ deadlocked)
send_start-closed c c' resume s w w' sub size sub' size' written holds usable connected free =
    let r = send_start_closed (afp_server_reconnect c resume) s w sub size usable connected free in
    (
      r.0,
      send_start_locked (afp_server_reconnect c' resume) _ w' sub' size' written
          (reconnect-HoldsLock c' resume holds) r.2 r.1,
    )
