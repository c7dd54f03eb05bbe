-- ===== src/Dsi/Pieces.antt =====
-- A reply that comes in any pieces.
use mathlib.Core.Path.{subst}
use afpfs_ng.Common.{
  ℕ, zero, suc, ◌+◌, ◌-◌, ◌≤◌, ◌<◌, ◌≡◌, refl, ap, sym, ◌∙◌, List, [], ◌∷◌, ◌++◌, append_assoc,
  append-nil, Bytes, true, false, ◌==◌, ltb, Option, some, length, take, drop, min, All, arith,
  length-append, take-append, ==_iff, Bool-cases, ◌⊎◌, inl, inr,
}
use afpfs_ng.Dsi.Frame.{Header, header_bytes}
use afpfs_ng.Dsi.Queue.{dsi_find_request, reply_arrived}
use afpfs_ng.Dsi.Receive.{
  Receiver, Outcome, Event, incomplete, complete, command, fill, header_of, appended,
  process_packet, is_read, is_bare, receive_rest, gotenough, found_request, noted, dsi_recv,
}
use afpfs_ng.Dsi.Server.{Request, Server}
use afpfs_ng.Dsi.Turns.{length-positive, front_piece, turn-piece}
use afpfs_ng.Dsi.Calls.{
  receive, IsHeader, header_of-header_bytes, length-header_bytes, write_at-append, note_code_twice,
  find_request-note_code, after_processing-exact, process_packet-command, found_request-other,
  gotenough_lem, receive_rest-more, receive_rest-all, receive_rest-bare, dsi_recv-gotenough,
  dsi_recv-header, dsi_recv-bare, receive-incomplete, receive-complete,
}

-- The packet is a DSICommand or a DSIWrite.
abbrev pub IsCommand : Header → Type 0
IsCommand h = (h.command ≡ 2) ⊎ (h.command ≡ 6)

module _ (h : Header) (body : Bytes) (base : Receiver) (r : Request) (w : IsHeader h)
    (size : length body ≡ h.size) (room : h.size + 16 ≤ base.bufsize) (is_command : IsCommand h)
    (found : dsi_find_request base.server.command_requests h.requestid ≡ some r)
    (no_read : is_read r.subcommand ≡ false) where
  -- The receiver when `have` has come in, with the memory behind it.
  abbrev pub st : Server → (have memory : Bytes) → ℕ → Receiver
  st server have memory count = record base {
    server = server;
    incoming = have ++ memory;
    data_read = length have;
    rx_bytes = count;
  }

  appended-st :
      (server : Server) (have memory got : Bytes) (count : ℕ)
      → appended (st server have memory count) got
        ≡ st server (have ++ got) (drop (length got) memory) (count + length got)
  unfolding appended
  appended-st server have memory got count =
      rw (write_at-append have got memory, length-append have got) refl

  abbrev pub told : Server
  told = noted h base.server

  abbrev pub coded : Request
  coded = record r { return_code = h.return_code }

  abbrev whole : Bytes
  whole = header_bytes h ++ body

  found_told : dsi_find_request told.command_requests h.requestid ≡ some coded
  found_told = find_request-note_code h.requestid h.return_code base.server.command_requests r found

  whole-length : length whole ≡ h.size + 16
  whole-length = omega (arith, length-append (header_bytes h) body, length-header_bytes h, size)

  abbrev finished : (memory : Bytes) → ℕ → Receiver
  finished memory count =
      record (st (reply_arrived told h.requestid h.return_code) whole memory count) {
        data_read = 0;
      }

  pub header_of_have : (b memory : Bytes) → header_of ((header_bytes h ++ b) ++ memory) ≡ h
  header_of_have b memory =
      ap header_of (append_assoc (header_bytes h) b memory)
      ∙ header_of-header_bytes h (b ++ memory) w

  process_whole :
      (memory : Bytes) (count : ℕ)
      → process_packet (st told whole memory count) h false (some coded)
        ≡ (finished memory count, complete (some (command coded whole)))
  process_whole memory count =
      let s = st told whole memory count in
      let e : s.data_read ≡ (header_of s.incoming).size + 16 =
        whole-length ∙ ap (λ (x : Header). x.size + 16) (sym (header_of_have body memory)) in
      process_packet-command s h coded
        (subst IsCommand (sym (header_of_have body memory)) is_command)
      ∙ after_processing-exact s h (some (command coded (take s.data_read s.incoming))) e
      ∙ ap (λ packet. (finished memory count, complete (some (command coded packet))))
          (take-append whole memory)

  is_bare-less : (s : Receiver) (x : Header) → s.data_read < 16 → is_bare s x ≡ false
  is_bare-less s x less = ground (arith, less)

  -- A whole reply, with nothing left in the socket.
  abbrev IsReply : Receiver × Outcome × Bytes → Type 0
  IsReply result =
      (memory : Bytes) × (count : ℕ) × (result
        ≡ (finished memory count, complete (some (command coded whole)), []))

  gotenough-st :
      (server : Server) (b memory : Bytes) (count : ℕ) (socket : Option Bytes)
      → noted h server ≡ told
      → gotenough (st server (header_bytes h ++ b) memory count) socket
        ≡ receive_rest (st told (header_bytes h ++ b) memory count) h false (some coded) socket
  gotenough-st server b memory count socket same =
      let s = st server (header_bytes h ++ b) memory count in
      gotenough_lem s h socket (header_of_have b memory)
      ∙ ap
          (λ v.
            found_request (st v (header_bytes h ++ b) memory count) h
              (dsi_find_request v.command_requests h.requestid) socket)
          same
      ∙ ap (λ q. found_request (st told (header_bytes h ++ b) memory count) h q socket) found_told
      ∙ found_request-other (st told (header_bytes h ++ b) memory count) h coded socket no_read

  pub have_length : (b : Bytes) → length (header_bytes h ++ b) ≡ 16 + length b
  have_length b = length-append (header_bytes h) b ∙ ap (λ n. n + length b) (length-header_bytes h)

  told_twice : noted h told ≡ told
  told_twice =
      ap (λ q. record base.server { command_requests = q })
        (note_code_twice h.requestid h.return_code base.server.command_requests)

  IsReply-eq :
      (result other : Receiver × Outcome × Bytes) → result ≡ other → IsReply other → IsReply result
  IsReply-eq result other e (memory, count, q) = (memory, count, e ∙ q)

  pub appended-have :
      (b got memory : Bytes) (count : ℕ)
      → appended (st told (header_bytes h ++ b) memory count) got
        ≡ st told (header_bytes h ++ (b ++ got)) (drop (length got) memory) (count + length got)
  appended-have b got memory count =
      appended-st told (header_bytes h ++ b) memory got count
      ∙ ap (λ have. st told have (drop (length got) memory) (count + length got))
          (append_assoc (header_bytes h) b got)

  -- A call behind the header, by what it reads.
  module _ (server : Server) (b memory : Bytes) (count : ℕ) (socket got left : Bytes)
      (same : noted h server ≡ told) (some_body : 0 < h.size)
      (read : fill (min h.size base.bufsize) (some socket) ≡ some (got, left)) where
    pub call_rest :
        dsi_recv (st server (header_bytes h ++ b) memory count) (some socket)
        ≡ receive_rest
            (st told (header_bytes h ++ b) memory count)
            h
            false
            (some coded)
            (some socket)
    call_rest =
        let there : ltb (length (header_bytes h ++ b)) 16 ≡ false = ground (arith, have_length b) in
        dsi_recv-gotenough (st server (header_bytes h ++ b) memory count) (some socket) there
        ∙ gotenough-st server b memory count (some socket) same

    pub not_bare : is_bare (st told (header_bytes h ++ b) memory count) h ≡ false
    not_bare = ground (arith, some_body)

    call-more :
        length b + length got < h.size
        → dsi_recv (st server (header_bytes h ++ b) memory count) (some socket) ≡ (
          st told (header_bytes h ++ (b ++ got)) (drop (length got) memory) (count + length got),
          incomplete,
          some left,
        )
    call-more less =
        let short : ltb (length (header_bytes h ++ b) + length got) (h.size + 16) ≡ true =
          ground (arith, have_length b, less) in
        call_rest
        ∙ receive_rest-more (st told (header_bytes h ++ b) memory count) h (some coded) socket got
            left read not_bare short
        ∙ ap (λ s. (s, incomplete, some left)) (appended-have b got memory count)

    call-all :
        b ++ got ≡ body
        → dsi_recv (st server (header_bytes h ++ b) memory count) (some socket) ≡ (
          finished (drop (length got) memory) (count + length got),
          complete (some (command coded whole)),
          some left,
        )
    call-all e =
        let lens : length b + length got ≡ h.size =
          sym (length-append b got) ∙ ap length e ∙ size in
        let long : ltb (length (header_bytes h ++ b) + length got) (h.size + 16) ≡ false =
          ground (arith, have_length b, lens) in
        let mem = drop (length got) memory in
        let n = count + length got in
        call_rest
        ∙ receive_rest-all (st told (header_bytes h ++ b) memory count) h (some coded) socket got
            left read not_bare long
        ∙ ap (λ s. let p = process_packet s h false (some coded) in (p.0, p.1, some left))
            (appended-have b got memory count ∙ ap (λ x. st told (header_bytes h ++ x) mem n) e)
        ∙ ap (λ (p : Receiver × Outcome). (p.0, p.1, some left)) (process_whole mem n)

  gather :
      (ks : List ℕ) (server : Server) (b1 b2 memory : Bytes) (count : ℕ)
      → All (λ k. 0 < k) ks
      → noted h server ≡ told
      → b1 ++ b2 ≡ body
      → 0 < length b2
      → length b2 ≤ length ks
      → IsReply (receive ks (st server (header_bytes h ++ b1) memory count) b2)
  gather ks server b1 [] memory count turns same split some_left enough = elim some_left [ ]
  gather [] server b1 (x ∷ xs) memory count turns same split some_left enough = elim enough [ ]
  gather (zero ∷ ks) server b1 (x ∷ xs) memory count turns same split some_left enough =
      elim (turns.0) [ ]
  gather (suc k ∷ ks) server b1 (x ∷ xs) memory count turns same split some_left enough =
      let s = st server (header_bytes h ++ b1) memory count in
      let socket = take (suc k) (x ∷ xs) in
      let lens : length b1 + suc (length xs) ≡ h.size =
        sym (length-append b1 (x ∷ xs)) ∙ ap length split ∙ size in
      let some_body : 0 < h.size = omega (arith, lens) in
      let (c, cs, left, read, joined, bound) =
        turn-piece (min h.size base.bufsize) k x xs (omega (arith, room, some_body)) in
      let got = c ∷ cs in
      let rest = left ++ drop k xs in
      let parts : (b1 ++ got) ++ rest ≡ body =
        append_assoc b1 got rest ∙ ap (λ y. b1 ++ y) joined ∙ split in
      let sizes : length got + length rest ≡ suc (length xs) =
        sym (length-append got rest) ∙ ap length joined in
      elim (length-positive rest) [
        | inl none_left ↦
            let full : b1 ++ got ≡ body =
              sym (append-nil (b1 ++ got)) ∙ ap (λ y. (b1 ++ got) ++ y) (sym none_left) ∙ parts in
            (
              drop (length got) memory,
              count + length got,
              receive-complete (suc k) ks s
                    (finished (drop (length got) memory) (count + length got))
                    (some (command coded whole)) (x ∷ xs) left
                    (call-all server b1 memory count socket got left same some_body read full)
                  ∙ ap
                      (λ y. (
                        finished (drop (length got) memory) (count + length got),
                        complete (some (command coded whole)),
                        y,
                      ))
                      none_left,
            )
        | inr more ↦
            let s' =
              st told (header_bytes h ++ (b1 ++ got)) (drop (length got) memory)
                (count + length got) in
            let call =
              call-more server b1 memory count socket got left same some_body read
                (omega (arith, sizes, lens, more)) in
            IsReply-eq _ _ (receive-incomplete (suc k) ks s s' (x ∷ xs) left call) (
              gather ks told (b1 ++ got) rest (drop (length got) memory) (count + length got)
                turns.1 told_twice parts more (omega (arith, sizes, enough)))
      ]

  no_body : h.size ≡ 0 → body ≡ []
  no_body zero_size = elim (length-positive body) [
    | inl e ↦ e
    | inr pos ↦ absurd (omega (arith, pos, size, zero_size))
  ]

  -- The header is whole.
  module _ (memory : Bytes) (count : ℕ) where
    abbrev ready : Receiver
    ready = st base.server (header_bytes h) memory count

    ready_have : ready ≡ st base.server (header_bytes h ++ []) memory count
    ready_have = ap (λ have. st base.server have memory count) (sym (append-nil (header_bytes h)))

    header_of_ready : header_of ready.incoming ≡ h
    header_of_ready = header_of-header_bytes h memory w

    bare-ready : h.size ≡ 0 → is_bare ready (header_of ready.incoming) ≡ true
    bare-ready e = ap (is_bare ready) header_of_ready ∙ ground (arith, length-header_bytes h, e)

    not_bare-ready : 0 < h.size → is_bare ready (header_of ready.incoming) ≡ false
    not_bare-ready pos = ap (is_bare ready) header_of_ready ∙ ground (arith, pos)

    gotenough-ready :
        (socket : Option Bytes)
        → h.size ≡ 0
        → gotenough ready socket
          ≡ (finished memory count, complete (some (command coded whole)), socket)
    gotenough-ready socket zero_size =
        let have = header_bytes h ++ [] in
        let bare : is_bare (st told have memory count) h ≡ true =
          ground (arith, have_length [], zero_size) in
        let p = λ (x : Bytes).
          process_packet (st told (header_bytes h ++ x) memory count) h false (some coded) in
        ap (λ s. gotenough s socket) ready_have
        ∙ gotenough-st base.server [] memory count socket refl
        ∙ receive_rest-bare (st told have memory count) h (some coded) socket bare
        ∙ ap (λ x. ((p x).0, (p x).1, socket)) (sym (no_body zero_size))
        ∙ ap (λ (q : Receiver × Outcome). (q.0, q.1, socket)) (process_whole memory count)

  -- A call that reads a piece of the header.
  module _ (h1 memory : Bytes) (count : ℕ) (socket got left : Bytes) (short : length h1 < 16)
      (read : fill (16 - length h1) (some socket) ≡ some (got, left)) where
    abbrev before : Receiver
    before = st base.server h1 memory count

    abbrev after : Receiver
    after = st base.server (h1 ++ got) (drop (length got) memory) (count + length got)

    call-header :
        is_bare after (header_of after.incoming) ≡ false
        → dsi_recv before (some socket) ≡ (after, incomplete, some left)
    call-header more =
        let e = appended-st base.server h1 memory got count in
        dsi_recv-header before socket got left read (ground (arith, short))
          (ap (λ s. is_bare s (header_of s.incoming)) e ∙ more)
        ∙ ap (λ s. (s, incomplete, some left)) e

    call-bare :
        is_bare after (header_of after.incoming) ≡ true
        → dsi_recv before (some socket) ≡ gotenough after (some left)
    call-bare bare =
        let e = appended-st base.server h1 memory got count in
        dsi_recv-bare before socket got left read (ground (arith, short))
          (ap (λ s. is_bare s (header_of s.incoming)) e ∙ bare)
        ∙ ap (λ s. gotenough s (some left)) e

  -- The header comes whole: the packet is bare, or its body follows.
  module _ (ks : List ℕ) (k : ℕ) (h1 memory : Bytes) (count : ℕ) (coming got left : Bytes)
      (turns : All (λ n. 0 < n) ks) (short : length h1 < 16)
      (read : fill (16 - length h1) (some (take (suc k) coming)) ≡ some (got, left))
      (full : h1 ++ got ≡ header_bytes h) (follows : left ++ drop (suc k) coming ≡ body)
      (enough : length body ≤ length ks) where
    abbrev mem : Bytes
    mem = drop (length got) memory

    abbrev n : ℕ
    n = count + length got

    after-ready : after h1 memory count (take (suc k) coming) got left short read ≡ ready mem n
    after-ready = ap (λ have. st base.server have mem n) full

    header_done : IsReply (receive (suc k ∷ ks) (st base.server h1 memory count) coming)
    header_done =
        let s = st base.server h1 memory count in
        let socket = take (suc k) coming in
        let event : Option Event = some (command coded whole) in
        elim (Bool-cases (h.size == 0)) [
          | inl z ↦
              let zero_size = (==_iff h.size 0).0 z in
              let bare =
                ap (λ x. is_bare x (header_of x.incoming)) after-ready
                ∙ bare-ready mem n zero_size in
              let call =
                call-bare h1 memory count socket got left short read bare
                ∙ ap (λ x. gotenough x (some left)) after-ready
                ∙ gotenough-ready mem n (some left) zero_size in
              (
                mem,
                n,
                receive-complete (suc k) ks s (finished mem n) event coming left call
                    ∙ ap (λ y. (finished mem n, complete event, y)) (follows ∙ no_body zero_size),
              )
          | inr nz ↦
              let some_body : 0 < h.size = ground (arith, nz) in
              let more =
                ap (λ x. is_bare x (header_of x.incoming)) after-ready
                ∙ not_bare-ready mem n some_body in
              let call =
                call-header h1 memory count socket got left short read more
                ∙ ap (λ x. (x, incomplete, some left)) after-ready in
              IsReply-eq _ _
                (receive-incomplete (suc k) ks s (ready mem n) coming left call
                  ∙ ap (receive ks (ready mem n)) follows
                  ∙ ap (λ x. receive ks x body) (ready_have mem n))
                (gather ks base.server [] body mem n turns refl refl
                  (omega (arith, size, some_body)) enough)
        ]

  collect :
      (ks : List ℕ) (h1 h2 memory : Bytes) (count : ℕ)
      → All (λ k. 0 < k) ks
      → h1 ++ h2 ≡ header_bytes h
      → 0 < length h2
      → length h2 + length body ≤ length ks
      → IsReply (receive ks (st base.server h1 memory count) (h2 ++ body))
  collect ks h1 [] memory count turns split some_left enough = elim some_left [ ]
  collect [] h1 (x ∷ xs) memory count turns split some_left enough = absurd (omega (arith, enough))
  collect (zero ∷ ks) h1 (x ∷ xs) memory count turns split some_left enough = elim (turns.0) [ ]
  collect (suc k ∷ ks) h1 (x ∷ xs) memory count turns split some_left enough =
      let coming = x ∷ (xs ++ body) in
      let socket = take (suc k) coming in
      let lens : length h1 + suc (length xs) ≡ 16 =
        sym (length-append h1 (x ∷ xs)) ∙ ap length split ∙ length-header_bytes h in
      let (c, cs, left, read, joined, bound) =
        turn-piece (16 - length h1) k x (xs ++ body) (omega (arith, lens)) in
      let got = c ∷ cs in
      let rest = left ++ drop k (xs ++ body) in
      let (h3, front, behind) =
        front_piece got rest (x ∷ xs) body joined (omega (arith, lens, bound)) in
      let parts : (h1 ++ got) ++ h3 ≡ header_bytes h =
        append_assoc h1 got h3 ∙ ap (λ y. h1 ++ y) front ∙ split in
      let sizes : length got + length h3 ≡ suc (length xs) =
        sym (length-append got h3) ∙ ap length front in
      let before_lem : length h1 < 16 = omega (arith, lens) in
      elim (length-positive h3) [
        | inl none_left ↦
            header_done ks k h1 memory count coming got left turns.1 before_lem read
              (sym (append-nil (h1 ++ got)) ∙ ap (λ y. (h1 ++ got) ++ y) (sym none_left) ∙ parts)
              (behind ∙ ap (λ y. y ++ body) none_left) (omega (arith, enough))
        | inr more ↦
            let s = after h1 memory count socket got left before_lem read in
            let full = length-append (h1 ++ got) h3 in
            let less : length (h1 ++ got) < 16 =
              omega (arith, full, ap length parts, length-header_bytes h, more) in
            let call =
              call-header h1 memory count socket got left before_lem read
                (is_bare-less s (header_of s.incoming) less) in
            IsReply-eq _ _
              (receive-incomplete (suc k) ks (st base.server h1 memory count) s coming left call
                ∙ ap (receive ks s) behind)
              (collect ks (h1 ++ got) h3 (drop (length got) memory) (count + length got) turns.1
                parts more (omega (arith, sizes, enough)))
      ]

-- A reply to a request that is in the queue and is not a read, whose header has DSICommand or
-- DSIWrite, comes through whole, in whatever pieces the connection gives its bytes, if it fits the
-- buffer, nothing of another packet is there, and no piece is empty: some call of `dsi_recv` hands
-- the packet with its header over to the handler of the request, nothing is left in the socket or
-- the buffer, and the sender is told the result that the header has. Every call before waits for
-- more.
pub receive-header_bytes :
    (h : Header) (body : Bytes) (base : Receiver) (r : Request) (turns : List ℕ)
    → IsHeader h
    → length body ≡ h.size
    → h.size + 16 ≤ base.bufsize
    → base.data_read ≡ 0
    → IsCommand h
    → dsi_find_request base.server.command_requests h.requestid ≡ some r
    → is_read r.subcommand ≡ false
    → All (λ k. 0 < k) turns
    → 16 + length body ≤ length turns
    → let (end, outcome, left) = receive turns base (header_bytes h ++ body) in
      (outcome
        ≡ complete
            (some (command (record r { return_code = h.return_code }) (header_bytes h ++ body))))
      × (left ≡ [])
      × (end.data_read ≡ 0)
      × (end.server ≡ reply_arrived (noted h base.server) h.requestid h.return_code)
receive-header_bytes h body base r turns w size room empty is_command found no_read ks enough =
    let start : base ≡ record base { data_read = 0 } =
      ap (λ d. record base { data_read = d }) empty in
    let some_header : 0 < length (header_bytes h) = omega (arith, length-header_bytes h) in
    let (memory, count, e) =
      collect h body base r w size room is_command found no_read turns [] (header_bytes h)
        base.incoming base.rx_bytes ks refl some_header
        (omega (arith, length-header_bytes h, enough)) in
    let e' = ap (λ s. receive turns s (header_bytes h ++ body)) start ∙ e in
    (ap (λ x. x.1) e', ap (λ x. x.2) e', ap (λ x. x.0.data_read) e', ap (λ x. x.0.server) e')
