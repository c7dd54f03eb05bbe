-- ===== src/Dsi/Frame.antt =====
-- The 16 bytes of `struct dsi_header` (lib/dsi_protocol.h), which `dsi_setup_header` and `dsi_send`
-- fill in, and a message with its header.
use afpfs_ng.Common.{ℕ, ◌%◌, ◌<◌, ◌≡◌, ◌∷◌, ◌++◌, Bytes, some, length, arith, append_assoc}
use afpfs_ng.Wire.{be16, be32, Reader, ◌>>=◌, pure, u8, u16, u32, bytes}
use afpfs_ng.Wire.Laws.{wire_laws, bytes-append}

-- What a header says. `return_code` is also the offset of the data of a write.
pub record Header : Type 0 where
  pub flags : ℕ
  pub command : ℕ
  pub requestid : ℕ
  pub return_code : ℕ
  pub size : ℕ
  pub reserved : ℕ

unfoldable pub header_bytes : Header → Bytes
header_bytes h =
    h.flags % 256
    ∷ h.command % 256
    ∷ (be16 h.requestid ++ (be32 h.return_code ++ (be32 h.size ++ be32 h.reserved)))

-- A message to the server: the header is cleared but for the request's number, its command, for a
-- write the offset of its data, and the size of what follows.
unfoldable pub frame : (requestid command data_offset : ℕ) → Bytes → Bytes
unfolding header_bytes
frame requestid command data_offset body =
    header_bytes (record {
      flags = 0;
      command = command;
      requestid = requestid;
      return_code = data_offset;
      size = length body;
      reserved = 0;
    })
    ++ body

unfoldable pub read_header : Reader Header
read_header = do
  f ← u8
  c ← u8
  i ← u16
  r ← u32
  n ← u32
  z ← u32
  pure (record { flags = f; command = c; requestid = i; return_code = r; size = n; reserved = z })

-- The header and the bytes that it announces.
unfoldable pub read_frame : Reader (Header × Bytes)
unfolding read_header
read_frame = do h ← read_header; body ← bytes h.size; pure (h, body)

-- One message: its number, command, data offset and body.
pub record Message : Type 0 where
  pub requestid : ℕ
  pub command : ℕ
  pub data_offset : ℕ
  pub body : Bytes

-- The fields of a message are as wide as those of the header.
pub record IsSendable (m : Message) : Type 0 where
  pub requestid : m.requestid < 65536
  pub command : m.command < 256
  pub data_offset : m.data_offset < 4294967296
  pub body : length m.body < 4294967296

abbrev pub announced : Message → Header
announced m = record {
  flags = 0;
  command = m.command;
  requestid = m.requestid;
  return_code = m.data_offset;
  size = length m.body;
  reserved = 0;
}

unfoldable pub sent : Message → Bytes
unfolding frame
sent m = frame m.requestid m.command m.data_offset m.body

-- The receiver finds the message in front of whatever follows it.
pub read_frame-sent :
    (m : Message) (rest : Bytes)
    → IsSendable m
    → read_frame (sent m ++ rest) ≡ some ((announced m, m.body), rest)
unfolding read_frame sent
read_frame-sent m rest h =
    let e1 : m.requestid % 65536 ≡ m.requestid = omega (arith, h.requestid) in
    let e2 : m.command % 256 ≡ m.command = omega (arith, h.command) in
    let e3 : m.data_offset % 4294967296 ≡ m.data_offset = omega (arith, h.data_offset) in
    let e4 : length m.body % 4294967296 ≡ length m.body = omega (arith, h.body) in
    simp (wire_laws, append_assoc, bytes-append, e1, e2, e3, e4)
