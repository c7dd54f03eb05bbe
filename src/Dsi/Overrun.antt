-- ===== src/Dsi/Overrun.antt =====
-- A packet that comes in two pieces with the next one behind it.
use mathlib.Core.Path.{subst}
use afpfs_ng.Common.{
  ℕ, suc, ◌+◌, ◌≤◌, ◌<◌, ◌≡◌, refl, ap, sym, ◌∙◌, [], ◌∷◌, ◌++◌, append_assoc, Bytes, false, ◌==◌,
  ltb, Option, some, length, take, drop, min, arith, length-append, length-take, take-append,
}
use afpfs_ng.Dsi.Calls.{
  IsHeader, length-header_bytes, drop-length_add, process_packet-command, receive_rest-all,
}
use afpfs_ng.Dsi.Frame.{Header, header_bytes}
use afpfs_ng.Dsi.Pieces.{
  IsCommand, st, told, coded, call_rest, not_bare, appended-have, header_of_have,
}
use afpfs_ng.Dsi.Queue.{dsi_find_request}
use afpfs_ng.Dsi.Receive.{
  Receiver, Event, complete, command, fill, header_of, out, after_processing, process_packet,
  is_read, dsi_recv,
}
use afpfs_ng.Dsi.Server.{Request}

take-length_add : (xs ys : Bytes) (n : ℕ) → take (length xs + n) (xs ++ ys) ≡ xs ++ take n ys
take-length_add [] ys n = let e : 0 + n ≡ n = omega arith in ap (λ k. take k ys) e
take-length_add (x ∷ xs) ys n =
    let e : suc (length xs) + n ≡ suc (length xs + n) = omega arith in
    ap (λ k. take k (x ∷ (xs ++ ys))) e ∙ ap (◌∷◌ x) (take-length_add xs ys n)

fill-past :
    (x : ℕ) (xs ys : Bytes) (n k : ℕ)
    → n ≡ suc (length xs) + k
    → fill n (some ((x ∷ xs) ++ ys)) ≡ some ((x ∷ xs) ++ take k ys, drop k ys)
unfolding fill
fill-past x xs ys n k e =
    let m : n ≡ suc (length xs + k) = omega (arith, e) in
    ap (λ j. fill j (some ((x ∷ xs) ++ ys))) m
    ∙ ap (λ t. some (x ∷ t, drop (length xs + k) (xs ++ ys))) (take-length_add xs ys k)
    ∙ ap (λ d. some (x ∷ (xs ++ take k ys), d)) (drop-length_add xs ys k)

after_processing-over :
    (s : Receiver) (found : Header) (event : Option Event)
    → (header_of s.incoming).size + 16 < s.data_read
    → let r = after_processing s found event in
      (r.1 ≡ complete event) × (r.0.data_read ≡ (header_of s.incoming).size + 16)
unfolding after_processing out
after_processing-over s found event more =
    let n = (header_of s.incoming).size + 16 in
    let l : ltb s.data_read n ≡ false = ground (arith, more) in
    let q : (s.data_read == n) ≡ false = ground (arith, more) in
    rw (l, q) (refl, omega (arith, more))

-- Where the header of a reply and a part of its body, one byte at least, have come in, and in the
-- socket the rest of it, one byte at least, is followed by as many bytes of the next packet as that
-- part has, or more, `dsi_recv` takes that many bytes of the next packet too: the handler gets them
-- as the end of its packet, they are gone from the socket, and the buffer counts as filled with a
-- whole packet, which is as long as the one that was handed over and not as what is left. The reply
-- has DSICommand or DSIWrite in its header, it answers a request that is in the queue and is not a
-- read, and it fits the buffer.
pub dsi_recv-over :
    (h : Header) (b1 : Bytes) (x : ℕ) (xs next memory : Bytes) (base : Receiver) (r : Request)
    → IsHeader h
    → length (b1 ++ (x ∷ xs)) ≡ h.size
    → h.size + 16 ≤ base.bufsize
    → IsCommand h
    → dsi_find_request base.server.command_requests h.requestid ≡ some r
    → is_read r.subcommand ≡ false
    → 0 < length b1
    → length b1 ≤ length next
    → let have = header_bytes h ++ b1 in
      let (end, outcome, left) =
        dsi_recv
          (record base { incoming = have ++ memory; data_read = length have })
          (some ((x ∷ xs) ++ next)) in
      (outcome
        ≡ complete (
            some (
              command
                (record r { return_code = h.return_code })
                (have ++ ((x ∷ xs) ++ take (length b1) next)))))
      × (left ≡ some (drop (length b1) next))
      × (end.data_read ≡ h.size + 16)
dsi_recv-over h b1 x xs next memory base r w size room is_command found no_read some_first more =
    let body = b1 ++ (x ∷ xs) in
    let got = (x ∷ xs) ++ take (length b1) next in
    let left = drop (length b1) next in
    let lens : length b1 + suc (length xs) ≡ h.size = sym (length-append b1 (x ∷ xs)) ∙ size in
    let read : fill (min h.size base.bufsize) (some ((x ∷ xs) ++ next)) ≡ some (got, left) =
      fill-past x xs next (min h.size base.bufsize) (length b1) (omega (arith, lens, room)) in
    let some_body : 0 < h.size = omega (arith, lens) in
    let s =
      st h body base r w size room is_command found no_read base.server (header_bytes h ++ b1)
        memory base.rx_bytes in
    let v = told h body base r w size room is_command found no_read in
    let t =
      st h body base r w size room is_command found no_read v (header_bytes h ++ b1) memory
        base.rx_bytes in
    let c = coded h body base r w size room is_command found no_read in
    let full =
      st h body base r w size room is_command found no_read v (header_bytes h ++ (b1 ++ got))
        (drop (length got) memory) (base.rx_bytes + length got) in
    let got_length : length got ≡ h.size =
      length-append (x ∷ xs) (take (length b1) next)
      ∙ omega (arith, length-take (length b1) next, more, lens) in
    let long : ltb (length (header_bytes h ++ b1) + length got) (h.size + 16) ≡ false =
      ground (arith, length-append (header_bytes h) b1, length-header_bytes h, got_length) in
    let call =
      call_rest h body base r w size room is_command found no_read base.server b1 memory
        base.rx_bytes ((x ∷ xs) ++ next) got left refl some_body read
      ∙ receive_rest-all t h (some c) ((x ∷ xs) ++ next) got left read
          (not_bare h body base r w size room is_command found no_read base.server b1 memory
            base.rx_bytes ((x ∷ xs) ++ next) got left refl some_body read)
          long
      ∙ ap (λ u. let p = process_packet u h false (some c) in (p.0, p.1, some left))
          (appended-have h body base r w size room is_command found no_read b1 got memory
            base.rx_bytes) in
    let header =
      header_of_have h body base r w size room is_command found no_read (b1 ++ got)
        (drop (length got) memory) in
    let processed = process_packet-command full h c (subst IsCommand (sym header) is_command) in
    let all = header_bytes h ++ (b1 ++ got) in
    let behind = drop (length got) memory in
    let event = some (command c (take (length all) (all ++ behind))) in
    let sz : (header_of (all ++ behind)).size ≡ h.size = ap (λ (y : Header). y.size) header in
    let all_length : length all ≡ 16 + (length b1 + h.size) = omega (
      arith,
      length-append (header_bytes h) (b1 ++ got),
      length-append b1 got,
      length-header_bytes h,
      got_length,
    ) in
    let over = after_processing-over full h event (omega (arith, sz, all_length, some_first)) in
    let packet = take-append all behind ∙ sym (append_assoc (header_bytes h) b1 got) in
    (
      ap (λ z. z.1) call
          ∙ ap (λ p. p.1) processed
          ∙ over.0
          ∙ ap (λ k. complete (some (command c k))) packet,
      ap (λ z. z.2) call,
      ap (λ z. z.0.data_read) call
          ∙ ap (λ p. p.0.data_read) processed
          ∙ over.1
          ∙ ap (λ n. n + 16) sz,
    )
