-- ===== src/Dsi/Calls.antt =====
-- The calls of `dsi_recv` by what they find.
use afpfs_ng.Common.{
  ℕ, zero, suc, ◌+◌, ◌-◌, ◌%◌, ◌≤◌, ◌<◌, ◌≡◌, refl, ap, sym, ◌∙◌, List, [], ◌∷◌, ◌++◌, append_assoc,
  Bytes, true, false, ◌==◌, ltb, Option, none, some, length, take, drop, min, arith, length-take,
  take-append, take-append-drop, Bool-cases, ◌⊎◌, inl, inr,
}
use afpfs_ng.Common.Memory.{write_at}
use afpfs_ng.Dsi.Frame.{Header, header_bytes, read_header}
use afpfs_ng.Dsi.Queue.{dsi_find_request, reply_arrived}
use afpfs_ng.Dsi.Receive.{
  Receiver, Outcome, Event, Received, failed, incomplete, crashed, complete, command, fill,
  header_of, note_code, appended, out, after_processing, command_packet, process_packet, is_read,
  is_bare, receive_rest, gotenough, found_request, noted, dsi_recv,
}
use afpfs_ng.Dsi.Server.{Request}
use afpfs_ng.Wire.{be16, be32}
use afpfs_ng.Wire.Laws.{wire_laws}

-- What a call leaves in the socket, in front of what has not come in.
abbrev pub left_in : (coming behind : Bytes) → Option Bytes → Bytes
left_in coming behind none = coming
left_in coming behind (some left) = left ++ behind

abbrev pub settled :
    (Receiver → Bytes → Receiver × Outcome × Bytes)
    → (coming behind : Bytes) → Received
    → Receiver × Outcome × Bytes
settled on coming behind (s, incomplete, left) = on s (left_in coming behind left)
settled on coming behind (s, failed, left) = (s, failed, left_in coming behind left)
settled on coming behind (s, crashed, left) = (s, crashed, left_in coming behind left)
settled on coming behind (s, complete e, left) = (s, complete e, left_in coming behind left)

-- The calls until one does not wait for more, each with as many of the bytes in the socket as its
-- turn says.
unfoldable pub receive : (turns : List ℕ) → Receiver → Bytes → Receiver × Outcome × Bytes
receive [] s coming = (s, incomplete, coming)
receive (k ∷ ks) s coming =
    settled (receive ks) coming (drop k coming) (dsi_recv s (some (take k coming)))

-- The fields are as wide as they are sent.
pub record IsHeader (h : Header) : Type 0 where
  pub flags : h.flags < 256
  pub command : h.command < 256
  pub requestid : h.requestid < 65536
  pub return_code : h.return_code < 4294967296
  pub size : h.size < 4294967296
  pub reserved : h.reserved < 4294967296

pub read_header-header_bytes :
    (h : Header) (memory : Bytes)
    → IsHeader h
    → read_header (header_bytes h ++ memory) ≡ some (h, memory)
unfolding header_bytes read_header
read_header-header_bytes h memory w =
    let e1 : h.requestid % 65536 ≡ h.requestid = omega (arith, w.requestid) in
    let e2 : h.command % 256 ≡ h.command = omega (arith, w.command) in
    let e3 : h.return_code % 4294967296 ≡ h.return_code = omega (arith, w.return_code) in
    let e4 : h.size % 4294967296 ≡ h.size = omega (arith, w.size) in
    let e5 : h.reserved % 4294967296 ≡ h.reserved = omega (arith, w.reserved) in
    let e6 : h.flags % 256 ≡ h.flags = omega (arith, w.flags) in
    simp (wire_laws, append_assoc, e1, e2, e3, e4, e5, e6)

pub header_of-header_bytes :
    (h : Header) (memory : Bytes) → IsHeader h → header_of (header_bytes h ++ memory) ≡ h
unfolding header_of
header_of-header_bytes h memory w = rw (read_header-header_bytes h memory w, header_of) refl

pub length-header_bytes : (h : Header) → length (header_bytes h) ≡ 16
unfolding header_bytes be16 be32
length-header_bytes h = refl

-- A read of something gives a piece of it from the front.
pub fill-piece :
    (n : ℕ) (x : ℕ) (xs : Bytes)
    → 0 < n
    → (c : ℕ) × (cs : Bytes) × (fill n (some (x ∷ xs)) ≡ some (c ∷ cs, drop n (x ∷ xs)))
      × ((c ∷ cs) ++ drop n (x ∷ xs) ≡ x ∷ xs)
      × (length (c ∷ cs) ≤ n)
unfolding fill
fill-piece zero x xs pos = elim pos [ ]
fill-piece (suc n) x xs pos =
    (x, take n xs, refl, ap (◌∷◌ x) (take-append-drop n xs), omega (arith, length-take n xs))

pub drop-length_add : (xs ys : Bytes) (n : ℕ) → drop (length xs + n) (xs ++ ys) ≡ drop n ys
drop-length_add [] ys n = let e : 0 + n ≡ n = omega arith in ap (λ k. drop k ys) e
drop-length_add (x ∷ xs) ys n =
    let e : suc (length xs) + n ≡ suc (length xs + n) = omega arith in
    ap (λ k. drop k (x ∷ (xs ++ ys))) e ∙ drop-length_add xs ys n

pub write_at-append :
    (xs bs memory : Bytes)
    → write_at (length xs) bs (xs ++ memory) ≡ (xs ++ bs) ++ drop (length bs) memory
unfolding write_at
write_at-append xs bs memory =
    rw (take-append xs memory, drop-length_add xs memory (length bs))
      (sym (append_assoc xs bs (drop (length bs) memory)))

pub note_code_twice :
    (id code : ℕ) (q : List Request) → note_code id code (note_code id code q) ≡ note_code id code q
unfolding note_code
note_code_twice id code [] = refl
note_code_twice id code (p ∷ ps) = elim (Bool-cases (p.requestid == id)) [
  | inl e ↦ rw e (rw e refl)
  | inr e ↦ rw e (rw e (ap (◌∷◌ p) (note_code_twice id code ps)))
]

pub find_request-note_code :
    (id code : ℕ) (q : List Request) (r : Request)
    → dsi_find_request q id ≡ some r
    → dsi_find_request (note_code id code q) id ≡ some (record r { return_code = code })
unfolding dsi_find_request note_code
find_request-note_code id code [] r h = cc h
find_request-note_code id code (p ∷ ps) r h = elim (Bool-cases (p.requestid == id)) [
  | inl e ↦ let q = rw e at h in rw e (rw e (cc q))
  | inr e ↦ rw e (rw e (find_request-note_code id code ps r (rw e at h)))
]

pub after_processing-exact :
    (s : Receiver) (found : Header) (event : Option Event)
    → s.data_read ≡ (header_of s.incoming).size + 16
    → after_processing s found event ≡ (
      record s { data_read = 0; server = reply_arrived s.server found.requestid found.return_code },
      complete event,
    )
unfolding after_processing out
after_processing-exact s found event e =
    let n = (header_of s.incoming).size + 16 in
    let l : ltb s.data_read n ≡ false = ground (arith, e) in
    let q : (s.data_read == n) ≡ true = ground (arith, e) in rw (l, q) refl

pub process_packet-command :
    (s : Receiver) (found : Header) (r : Request)
    → ((header_of s.incoming).command ≡ 2) ⊎ ((header_of s.incoming).command ≡ 6)
    → process_packet s found false (some r)
      ≡ after_processing s found (some (command r (take s.data_read s.incoming)))
unfolding process_packet command_packet
process_packet-command s found r (inl c) = rw c refl
process_packet-command s found r (inr c) = rw c refl

pub found_request-other :
    (s : Receiver) (h : Header) (r : Request) (socket : Option Bytes)
    → is_read r.subcommand ≡ false
    → found_request s h (some r) socket ≡ receive_rest s h false (some r) socket
unfolding found_request
found_request-other s h r socket no_read = rw no_read refl

pub gotenough_lem :
    (s : Receiver) (h : Header) (socket : Option Bytes)
    → header_of s.incoming ≡ h
    → gotenough s socket
      ≡ found_request
          (record s { server = noted h s.server })
          h
          (dsi_find_request (noted h s.server).command_requests h.requestid)
          socket
unfolding gotenough
gotenough_lem s h socket e =
    ap
      (λ x.
        found_request (record s { server = noted x s.server }) x
          (dsi_find_request (noted x s.server).command_requests x.requestid) socket)
      e

module _ (s : Receiver) (h : Header) (request : Option Request) (socket got left : Bytes)
    (read : fill (min h.size s.bufsize) (some socket) ≡ some (got, left))
    (more : is_bare s h ≡ false) where
  pub receive_rest-more :
      ltb (s.data_read + length got) (h.size + 16) ≡ true
      → receive_rest s h false request (some socket) ≡ (appended s got, incomplete, some left)
  unfolding receive_rest appended
  receive_rest-more short = rw (more, read, receive_rest) (rw short refl)

  pub receive_rest-all :
      ltb (s.data_read + length got) (h.size + 16) ≡ false
      → let p = process_packet (appended s got) h false request in
        receive_rest s h false request (some socket) ≡ (p.0, p.1, some left)
  unfolding receive_rest appended
  receive_rest-all long = rw (more, read, receive_rest) (rw long refl)

pub receive_rest-bare :
    (s : Receiver) (h : Header) (request : Option Request) (socket : Option Bytes)
    → is_bare s h ≡ true
    → let p = process_packet s h false request in
      receive_rest s h false request socket ≡ (p.0, p.1, socket)
unfolding receive_rest
receive_rest-bare s h request socket bare = rw bare refl

pub dsi_recv-gotenough :
    (s : Receiver) (socket : Option Bytes)
    → ltb s.data_read 16 ≡ false
    → dsi_recv s socket ≡ gotenough s socket
unfolding dsi_recv
dsi_recv-gotenough s socket there = rw there refl

module _ (s : Receiver) (socket got left : Bytes)
    (read : fill (16 - s.data_read) (some socket) ≡ some (got, left))
    (short : ltb s.data_read 16 ≡ true) where
  pub dsi_recv-header :
      is_bare (appended s got) (header_of (appended s got).incoming) ≡ false
      → dsi_recv s (some socket) ≡ (appended s got, incomplete, some left)
  unfolding dsi_recv
  dsi_recv-header more = rw (short, read, dsi_recv) (rw more refl)

  pub dsi_recv-bare :
      is_bare (appended s got) (header_of (appended s got).incoming) ≡ true
      → dsi_recv s (some socket) ≡ gotenough (appended s got) (some left)
  unfolding dsi_recv
  dsi_recv-bare bare = rw (short, read, dsi_recv) (rw bare refl)

pub receive-incomplete :
    (k : ℕ) (ks : List ℕ) (s s' : Receiver) (coming left : Bytes)
    → dsi_recv s (some (take k coming)) ≡ (s', incomplete, some left)
    → receive (k ∷ ks) s coming ≡ receive ks s' (left ++ drop k coming)
unfolding receive
receive-incomplete k ks s s' coming left e = ap (settled (receive ks) coming (drop k coming)) e

pub receive-complete :
    (k : ℕ) (ks : List ℕ) (s s' : Receiver) (event : Option Event) (coming left : Bytes)
    → dsi_recv s (some (take k coming)) ≡ (s', complete event, some left)
    → receive (k ∷ ks) s coming ≡ (s', complete event, left ++ drop k coming)
unfolding receive
receive-complete k ks s s' event coming left e = ap (settled (receive ks) coming (drop k coming)) e
