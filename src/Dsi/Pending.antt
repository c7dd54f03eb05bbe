-- ===== src/Dsi/Pending.antt =====
-- The count of pending requests is the length of the queue, through every step of the threads.
use afpfs_ng.Common.{
  ℕ, ◌+◌, ◌≤◌, ◌≡◌, refl, List, [], ◌∷◌, ◌++◌, true, false, length, length-append, arith, ◌==◌,
  if_both, Option-cases, inl, inr, not, ◌||◌,
}
use afpfs_ng.Dsi.Queue.{
  Written, all_written, closed, failed, Woken, signalled, timed_out, Sending, unlink, is_queued,
  dsi_remove_from_request_queue, dsi_find_request, enqueue, send_written, send_locking,
  ensure_connected, send_start, send_end, answer, reply_arrived,
}
use afpfs_ng.Dsi.Server.{Request, Server, Wait, dsi_setup_header}

-- The addresses of the queue ascend from `lo`, all below `hi`.
abbrev pub Ascends : ℕ → List Request → ℕ → Type 0
Ascends lo [] hi = lo ≤ hi
Ascends lo (p ∷ ps) hi = (lo ≤ p.ptr) × Ascends (p.ptr + 1) ps hi

pub record IsConsistent (s : Server) : Type 0 where
  pub counted : s.requests_pending ≡ length s.command_requests
  pub fresh : Ascends 0 s.command_requests s.next_ptr

Ascends-le :
    (lo lo' : ℕ) (ps : List Request) (hi : ℕ) → lo' ≤ lo → Ascends lo ps hi → Ascends lo' ps hi
Ascends-le lo lo' [] hi h a = omega arith
Ascends-le lo lo' (p ∷ ps) hi h a = (omega arith, a.1)

Ascends-bound : (lo : ℕ) (ps : List Request) (hi : ℕ) → Ascends lo ps hi → lo ≤ hi
Ascends-bound lo [] hi a = a
Ascends-bound lo (p ∷ ps) hi a = omega (arith, Ascends-bound (p.ptr + 1) ps hi a.1)

Ascends-snoc :
    (lo : ℕ) (ps : List Request) (r : Request)
    → Ascends lo ps r.ptr
    → Ascends lo (ps ++ (r ∷ [])) (r.ptr + 1)
Ascends-snoc lo [] r a = (a, omega arith)
Ascends-snoc lo (p ∷ ps) r a = (a.0, Ascends-snoc (p.ptr + 1) ps r a.1)

Ascends-unlink :
    (lo ptr : ℕ) (ps : List Request) (hi : ℕ) → Ascends lo ps hi → Ascends lo (unlink ptr ps) hi
unfolding unlink
Ascends-unlink lo ptr [] hi a = a
Ascends-unlink lo ptr (p ∷ ps) hi a = ground (
  arith,
  Ascends-le (p.ptr + 1) lo ps hi (omega arith) a.1,
  Ascends-unlink (p.ptr + 1) ptr ps hi a.1,
)

Ascends-answer :
    (lo ptr code : ℕ) (ps : List Request) (hi : ℕ)
    → Ascends lo ps hi
    → Ascends lo (answer ptr code ps) hi
unfolding answer
Ascends-answer lo ptr code [] hi a = a
Ascends-answer lo ptr code (p ∷ ps) hi a =
    ground (arith, Ascends-answer (p.ptr + 1) ptr code ps hi a.1)

length-answer : (ptr code : ℕ) (ps : List Request) → length (answer ptr code ps) ≡ length ps
unfolding answer
length-answer ptr code [] = refl
length-answer ptr code (p ∷ ps) = ground (arith, length-answer ptr code ps)

length-unlink :
    (ptr : ℕ) (ps : List Request) → is_queued ptr ps ≡ true → length (unlink ptr ps) + 1 ≡ length ps
unfolding unlink is_queued
length-unlink ptr [] h = cc
length-unlink ptr (p ∷ ps) h = ground (arith, length-unlink ptr ps)

pub remove-IsConsistent :
    (s : Server) (ptr : ℕ) → IsConsistent s → IsConsistent (dsi_remove_from_request_queue s ptr).0
unfolding dsi_remove_from_request_queue
remove-IsConsistent s ptr c = ground (
  arith,
  length-unlink ptr s.command_requests,
  Ascends-unlink 0 ptr s.command_requests s.next_ptr c.fresh,
)

enqueue-IsConsistent :
    (s : Server) (w : Wait) (sub : ℕ) → IsConsistent s → IsConsistent (enqueue s w sub)
unfolding enqueue
enqueue-IsConsistent s w sub c = record {
  counted = omega (arith, c.counted, length-append s.command_requests (request ∷ []));
  fresh = Ascends-snoc 0 s.command_requests request c.fresh;
}
  where
    request : Request
    request = record {
      ptr = s.next_ptr;
      requestid = s.lastrequestid;
      subcommand = sub;
      wait = w;
      done_waiting = false;
      return_code = 0;
    }

send_written-IsConsistent :
    (s : Server) (r : Request) (size : ℕ) (w : Written)
    → IsConsistent s
    → IsConsistent (send_written s r size w).0
unfolding send_written
send_written-IsConsistent s r size all_written c = record { counted = c.counted; fresh = c.fresh }
send_written-IsConsistent s r size closed c = record { counted = c.counted; fresh = c.fresh }
send_written-IsConsistent s r size failed c =
    remove-IsConsistent (record s { send_locked = false }) r.ptr
      (record { counted = c.counted; fresh = c.fresh })

send_locking-IsConsistent :
    (s : Server) (r : Request) (size : ℕ) (w : Written)
    → IsConsistent s
    → IsConsistent (send_locking s r size w).0
unfolding send_locking
send_locking-IsConsistent s r size w c =
    if_both (λ (o : Server × Sending). IsConsistent o.0) s.send_locked _ _ c
      (send_written-IsConsistent s r size w c)

send_end-IsConsistent :
    (s : Server) (r : Request) (w : Woken) → IsConsistent s → IsConsistent (send_end s r w).0
unfolding send_end
send_end-IsConsistent s r signalled c = remove-IsConsistent s r.ptr c
send_end-IsConsistent s r timed_out c = remove-IsConsistent s r.ptr c

reply_arrived-IsConsistent :
    (s : Server) (requestid code : ℕ)
    → IsConsistent s
    → IsConsistent (reply_arrived s requestid code)
unfolding reply_arrived
reply_arrived-IsConsistent s requestid code c =
    elim (Option-cases (dsi_find_request s.command_requests requestid)) [
      | inl e ↦ ground arith
      | inr (r, e) ↦ ground (
        arith,
        remove-IsConsistent s r.ptr c,
        length-answer r.ptr code s.command_requests,
        Ascends-answer 0 r.ptr code s.command_requests s.next_ptr c.fresh,
      )
    ]

module _ (reconnect : Server → Server) where
  -- What the threads of the client do to the server's state, in any order: number a request, send
  -- it up to its wait, come back from the wait, or take in a whole reply.
  pub data Step : Server → Server → Type 0 where
    setup : (s : Server) → Step s (dsi_setup_header s)
    start :
        (s : Server) (w : Wait) (sub size : ℕ) (written : Written)
        → Step s (send_start reconnect s w sub size written).0
    end : (s : Server) (r : Request) (w : Woken) → Step s (send_end s r w).0
    reply : (s : Server) (requestid code : ℕ) → Step s (reply_arrived s requestid code)

  pub data Reach (s : Server) : Server → Type 0 where
    here : Reach s s
    next : {t u : Server} → Reach s t → Step t u → Reach s u

  module _ (keeps : (s : Server) → IsConsistent s → IsConsistent (reconnect s)) where
    ensure_connected-IsConsistent :
        (s : Server) → IsConsistent s → IsConsistent (ensure_connected reconnect s)
    unfolding ensure_connected
    ensure_connected-IsConsistent s c = if_both IsConsistent s.connected _ _ c (keeps s c)

    send_start-IsConsistent :
        (s : Server) (w : Wait) (sub size : ℕ) (written : Written)
        → IsConsistent s
        → IsConsistent (send_start reconnect s w sub size written).0
    unfolding send_start
    send_start-IsConsistent s w sub size written c =
        if_both (λ (o : Server × Sending). IsConsistent o.0) (not s.valid || s.fd == 0) _ _ c
          (send_locking-IsConsistent _ _ size written
            (ensure_connected-IsConsistent _ (enqueue-IsConsistent s w sub c)))

    Step-IsConsistent : {s t : Server} → Step s t → IsConsistent s → IsConsistent t
    Step-IsConsistent (setup s) c =
        unfold dsi_setup_header in record { counted = c.counted; fresh = c.fresh }
    Step-IsConsistent (start s w sub size written) c =
        send_start-IsConsistent s w sub size written c
    Step-IsConsistent (end s r w) c = send_end-IsConsistent s r w c
    Step-IsConsistent (reply s requestid code) c = reply_arrived-IsConsistent s requestid code c

    -- Whatever the threads do and in whatever order, `requests_pending` is the number of requests
    -- in the queue, and no two of them are the same struct, if that holds at first and a
    -- reconnection keeps it.
    pub Reach-IsConsistent : {s t : Server} → Reach s t → IsConsistent s → IsConsistent t
    Reach-IsConsistent here c = c
    Reach-IsConsistent (next r st) c = Step-IsConsistent st (Reach-IsConsistent r c)
