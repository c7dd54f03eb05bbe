-- ===== src/Dsi/Receive.antt =====
-- `dsi_recv` of lib/dsi.c, which is called whenever something has come in and reads from the socket
-- once at most. What is processed is an event with the packet; the handlers are in Status and in
-- Replies.
use afpfs_ng.Common.{
  ℕ, ◌+◌, ◌-◌, ◌%◌, List, [], ◌∷◌, Bytes, Bool, true, false, ◌&&◌, ◌||◌, ◌==◌, ltb, Option, none,
  some, if◌then◌else◌, length, take, drop, min,
}
use afpfs_ng.Common.Memory.{write_at}
use afpfs_ng.Dsi.Frame.{Header, read_header}
use afpfs_ng.Dsi.Queue.{dsi_find_request, reply_arrived}
use afpfs_ng.Dsi.Server.{Request, Server}

-- `struct afp_rx_buffer`, which the sender of a read gives.
pub record RxBuffer : Type 0 where
  pub size : ℕ
  pub maxsize : ℕ
  pub contents : Bytes

-- The server with what is read: the memory of `incoming_buffer` and how much of it is filled, the
-- buffers of the requests by their addresses, and the statistics. What is written behind the end of
-- a buffer is kept as if it were longer.
pub record Receiver : Type 0 where
  pub server : Server
  pub incoming : Bytes
  pub data_read : ℕ
  pub bufsize : ℕ
  pub rx_of : ℕ → RxBuffer
  pub rx_bytes : ℕ
  pub runt_packets : ℕ

-- What is processed: a packet, with the request that it answers.
pub data Event : Type 0 where
  close_session tickle : Event
  get_status open_session attention : (packet : Bytes) → Event
  command : Request → (packet : Bytes) → Event

-- The result -1, or 0 because more has to come, or 0 with what has been processed; and a read of
-- the missing request, or a copy of a size below 0.
pub data Outcome : Type 0 where
  failed incomplete crashed : Outcome
  complete : Option Event → Outcome

-- The receiver after a call, and what is left in the socket.
abbrev pub Received : Type 0
Received = Receiver × Outcome × Option Bytes

-- `read(fd,p,n)`: `none` for an error; nothing read stands for the end of the connection. What is
-- read, and what is left.
unfoldable pub fill : (n : ℕ) → Option Bytes → Option (Bytes × Bytes)
fill n none = none
fill n (some socket) = elim (take n socket) [ [] ↦ none | c ∷ cs ↦ some (c ∷ cs, drop n socket) ]

-- The header at the front of the buffer, which has room for it.
unfoldable pub header_of : Bytes → Header
header_of memory = elim (read_header memory) [
  | some (h, rest) ↦ h
  | none ↦ record { flags = 0; command = 0; requestid = 0; return_code = 0; size = 0; reserved = 0 }
]

-- `request->return_code=...`
unfoldable pub note_code : (requestid code : ℕ) → List Request → List Request
note_code requestid code [] = []
note_code requestid code (p ∷ ps) =
    if p.requestid == requestid
    then record p { return_code = code } ∷ ps
    else p ∷ note_code requestid code ps

-- What has been read goes behind what is there.
unfoldable pub appended : Receiver → Bytes → Receiver
unfolding write_at
appended s got = record s {
  incoming = write_at s.data_read got s.incoming;
  data_read = s.data_read + length got;
  rx_bytes = s.rx_bytes + length got;
}

-- "out": the sender is told. A request that was found is the first with its number.
unfoldable pub out : Receiver → Header → Option Event → Receiver × Outcome
unfolding reply_arrived
out s h event =
    (record s { server = reply_arrived s.server h.requestid h.return_code }, complete event)

-- "after_processing": what was read behind the packet is copied to the front, from 16 bytes before
-- it.
unfoldable pub after_processing : Receiver → (found : Header) → Option Event → Receiver × Outcome
unfolding write_at header_of out
after_processing s found event =
    let h = header_of s.incoming in
    let size_to_copy = s.data_read - (h.size + 16) in
    if ltb s.data_read (h.size + 16)
    then (s, crashed)
    else if s.data_read == h.size + 16
    then out (record s { data_read = 0 }) found event
    else out
        (record s {
          incoming = write_at 0 (take size_to_copy (drop h.size s.incoming)) s.incoming;
          data_read = s.data_read - size_to_copy;
        })
        found event

-- DSI_DSICommand and DSI_DSIWrite.
unfoldable pub command_packet :
    Receiver → Header → (runt_packet : Bool) → Option Request → Receiver × Outcome
unfolding after_processing
command_packet s found runt_packet request =
    if runt_packet then after_processing s found none else elim request [
      | none ↦ (s, crashed)
      | some r ↦ after_processing s found (some (command r (take s.data_read s.incoming)))
    ]

-- The switch over the command of the header, as it stands in the buffer now.
unfoldable pub process_packet :
    Receiver → Header → (runt_packet : Bool) → Option Request → Receiver × Outcome
unfolding command_packet
process_packet s found runt_packet request =
    let c = (header_of s.incoming).command in
    let packet = take s.data_read s.incoming in
    if c == 1
    then after_processing s found (some close_session)
    else if c == 3
    then after_processing s found (some (get_status packet))
    else if c == 4
    then after_processing s found (some (open_session packet))
    else if c == 5
    then after_processing s found (some tickle)
    else if (c == 6) || (c == 2)
    then command_packet s found runt_packet request
    else if c == 8
    then after_processing s found (some (attention packet))
    else (s, failed)

abbrev pub is_read : (subcommand : ℕ) → Bool
is_read subcommand = (subcommand == 27) || (subcommand == 60)

-- A packet of its header alone.
abbrev pub is_bare : Receiver → Header → Bool
is_bare s h = (s.data_read == 16) && (h.size == 0)

-- The buffer of a read has all of it; what stands behind the header is moved to the front.
unfoldable pub read_done : Receiver → Header → Request → Receiver × Outcome
unfolding process_packet
read_done s h r =
    let size_to_copy = s.data_read - 16 in
    if size_to_copy == 0
    then out (record s { data_read = 0 }) h none
    else process_packet
        (record s {
          incoming = write_at 0 (take size_to_copy (drop 16 s.incoming)) s.incoming;
          data_read = size_to_copy;
        })
        h false (some r)

-- What a reply to a read brings goes to the buffer of its request. Sizes are below 2 ^ 31.
unfoldable pub receive_read : Receiver → Header → Request → Option Bytes → Received
unfolding fill write_at read_done
receive_read s h r socket =
    let buf = s.rx_of r.ptr in
    let newmax =
      min ((buf.maxsize + 4294967296 - buf.size) % 4294967296)
        ((h.size + 4294967296 - buf.size) % 4294967296) in
    let bare : Received = let o = out (record s { data_read = 0 }) h none in (o.0, o.1, socket) in
    let read : Received = elim (fill newmax socket) [
      | none ↦ (s, failed, socket)
      | some (got, left) ↦
          let grown = record buf {
            size = buf.size + length got;
            contents = write_at buf.size got buf.contents;
          } in
          let s' = record s {
            rx_of = λ ptr. if ptr == r.ptr then grown else s.rx_of ptr;
            rx_bytes = s.rx_bytes + length got;
          } in
          let done = read_done s' h r in
          if h.size == buf.size + length got
          then (done.0, done.1, some left)
          else (s', incomplete, some left)
    ] in
    if is_bare s h then bare else if buf.maxsize == 0 then (s, failed, socket) else read

-- The rest of any other packet. As much as all of it is asked for, also where a part of it is
-- there.
unfoldable pub receive_rest :
    Receiver → Header → (runt_packet : Bool) → Option Request → Option Bytes → Received
unfolding fill appended process_packet
receive_rest s h runt_packet request socket =
    let bare = process_packet s h runt_packet request in
    let read : Received = elim (fill (min h.size s.bufsize) socket) [
      | none ↦ (s, failed, socket)
      | some (got, left) ↦
          let s' = appended s got in
          let done =
            if runt_packet
            then after_processing s' h none
            else process_packet s' h runt_packet request in
          if ltb s'.data_read (h.size + 16)
          then (s', incomplete, some left)
          else (done.0, done.1, some left)
    ] in
    if is_bare s h then (bare.0, bare.1, socket) else read

-- What follows the search for the request.
unfoldable pub found_request : Receiver → Header → Option Request → Option Bytes → Received
unfolding receive_read receive_rest
found_request s h none socket =
    if h.flags == 1
    then receive_rest (record s { runt_packets = s.runt_packets + 1 }) h true none socket
    else receive_rest s h false none socket
found_request s h (some r) socket =
    if is_read r.subcommand
    then receive_read s h r socket
    else receive_rest s h false (some r) socket

abbrev pub noted : Header → Server → Server
noted h server = record server {
  command_requests = note_code h.requestid h.return_code server.command_requests;
}

-- "gotenough": the header is there.
unfoldable pub gotenough : Receiver → Option Bytes → Received
unfolding header_of note_code found_request
gotenough s socket =
    let h = header_of s.incoming in
    let server = noted h s.server in
    found_request (record s { server = server }) h
      (dsi_find_request server.command_requests h.requestid) socket

-- One call, with what is in the socket.
unfoldable pub dsi_recv : Receiver → Option Bytes → Received
unfolding gotenough
dsi_recv s socket =
    let read : Received = elim (fill (16 - s.data_read) socket) [
      | none ↦ (s, failed, socket)
      | some (got, left) ↦
          let s' = appended s got in
          if is_bare s' (header_of s'.incoming)
          then gotenough s' (some left)
          else (s', incomplete, some left)
    ] in
    if ltb s.data_read 16 then read else gotenough s socket
