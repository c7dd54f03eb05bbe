-- ===== src/Replies/Packet.antt =====
-- What the reply handlers of lib/proto_*.c are given and give back.
use afpfs_ng.Common.{ℕ, ◌+◌, ◌*◌, ◌/◌, ◌%◌, Bytes, none, some, if◌then◌else◌, ltb, length}
use afpfs_ng.Wire.{Reader}

-- A packet that has come in: the field `error_code` of its header as the host reads it, and the
-- bytes behind the header, of which the handler gets 16 more as `size`.
pub record Packet : Type 0 where
  pub error_code : ℕ
  pub body : Bytes

-- `ntohl` of a number of 32 bits, on a little-endian host.
unfoldable pub ntohl : ℕ → ℕ
ntohl n = n % 256 * 16777216 + n / 256 % 256 * 65536 + n / 65536 % 256 * 256 + n / 16777216 % 256

-- What a handler returns: 0 with what it has stored, -1, or the error code as it stands; and a read
-- behind what has come in, which the source does not guard.
pub data Handled (A : Type 0) : Type 0 where
  stored : A → Handled A
  failed overread : Handled A
  returned : (error_code : ℕ) → Handled A

-- What a reader finds in the body.
unfoldable pub read_body : {A : Type 0} → Reader A → Bytes → Handled A
read_body m body = elim (m body) [ none ↦ overread | some (a, rest) ↦ stored a ]

-- `if (size < sizeof(*reply)) return -1;`, with the size of what follows the header.
abbrev pub unless_short : {A : Type 0} → (needed : ℕ) → Bytes → Handled A → Handled A
unless_short needed body rest = if ltb (length body) needed then failed else rest

-- What is stored, changed.
abbrev pub mapped : {A B : Type 0} → (A → B) → Handled A → Handled B
mapped f (stored a) = stored (f a)
mapped f failed = failed
mapped f overread = overread
mapped f (returned e) = returned e
