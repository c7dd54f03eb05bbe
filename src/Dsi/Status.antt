-- ===== src/Dsi/Status.antt =====
-- What lib/dsi.c makes of the replies to DSIGetStatus and DSIOpenSession and of an attention, with
-- lib/uams_def.c. They get what follows the DSI header; `none` is a read behind it, which the
-- source does not guard.
use afpfs_ng.Codepage.{Unicode, convert_utf8dec_to_utf8pre}
use afpfs_ng.Common.{
  ℕ, zero, suc, ◌+◌, ◌%◌, ◌^◌, List, [], ◌∷◌, ◌++◌, map, Bytes, Bool, true, false, ◌&&◌, ◌||◌, ltb,
  leb, ◌==◌, Option, none, some, if◌then◌else◌, length, take, drop, get_elem?, min, bit_or,
}
use afpfs_ng.Did.Cache.{str_eq}
use afpfs_ng.Names.{copy_from_pascal}
use afpfs_ng.Proto.Codes.{has}
use afpfs_ng.Replies.Block.{when, jump}
use afpfs_ng.Server.{AfpVersion, afp_versions}
use afpfs_ng.Wire.{Reader, ◌>>=◌, pure, u8, u16, u32, bytes}

-- The names of the methods, by the number of their bit.
abbrev pub afp_strings : List Bytes
afp_strings =
    (b'N' ∷ b'o' ∷ 32 ∷ b'U' ∷ b's' ∷ b'e' ∷ b'r' ∷ 32 ∷ b'A' ∷ b'u' ∷ b't' ∷ b'h' ∷ b'e' ∷ b'n'
      ∷ b't' ∷ [])
    ∷ (b'C' ∷ b'l' ∷ b'e' ∷ b'a' ∷ b'r' ∷ b't' ∷ b'x' ∷ b't' ∷ 32 ∷ b'P' ∷ b'a' ∷ b's' ∷ b's' ∷ b'w'
        ∷ b'r' ∷ b'd' ∷ [])
    ∷ (b'R' ∷ b'a' ∷ b'n' ∷ b'd' ∷ b'n' ∷ b'u' ∷ b'm' ∷ 32 ∷ b'E' ∷ b'x' ∷ b'c' ∷ b'h' ∷ b'a' ∷ b'n'
        ∷ b'g' ∷ b'e' ∷ [])
    ∷ (b'2' ∷ b'-' ∷ b'W' ∷ b'a' ∷ b'y' ∷ 32 ∷ b'R' ∷ b'a' ∷ b'n' ∷ b'd' ∷ b'n' ∷ b'u' ∷ b'm' ∷ 32
        ∷ b'E' ∷ b'x' ∷ b'c' ∷ b'h' ∷ b'a' ∷ b'n' ∷ b'g' ∷ b'e' ∷ [])
    ∷ (b'D' ∷ b'H' ∷ b'C' ∷ b'A' ∷ b'S' ∷ b'T' ∷ b'1' ∷ b'2' ∷ b'8' ∷ [])
    ∷ (b'C' ∷ b'l' ∷ b'i' ∷ b'e' ∷ b'n' ∷ b't' ∷ 32 ∷ b'K' ∷ b'r' ∷ b'b' ∷ 32 ∷ b'v' ∷ b'2' ∷ [])
    ∷ (b'D' ∷ b'H' ∷ b'X' ∷ b'2' ∷ [])
    ∷ (b'R' ∷ b'e' ∷ b'c' ∷ b'o' ∷ b'n' ∷ b'1' ∷ [])
    ∷ []

-- The text that a buffer holds, which ends at a 0.
unfoldable pub c_string : Bytes → Bytes
c_string [] = []
c_string (c ∷ s) = let rest = c_string s in if c == 0 then [] else c ∷ rest

-- For `strcasecmp`.
abbrev pub lower : ℕ → ℕ
lower c = if leb b'A' c && leb c b'Z' then c + 32 else c

unfoldable pub bit_named : (name : Bytes) → (i : ℕ) → List Bytes → ℕ
unfolding c_string
bit_named name i [] = 0
bit_named name i (s ∷ ss) =
    let later = bit_named name (i + 1) ss in
    if str_eq (map lower (c_string name)) (map lower s) then 2 ^ i else later

unfoldable pub uam_string_to_bitmap : Bytes → ℕ
unfolding bit_named
uam_string_to_bitmap name = bit_named name 0 afp_strings

-- The name of the highest bit: `none` is NULL, and `some none` what stands behind the table.
unfoldable pub string_below : (n bitmap : ℕ) → Option (Option Bytes)
string_below zero bitmap = none
string_below (suc i) bitmap =
    let later = string_below i bitmap in
    if has bitmap (2 ^ i) then some (get_elem? (afp_strings ++ ([] ∷ [])) i) else later

unfoldable pub uam_bitmap_to_string : (bitmap : ℕ) → Option (Option Bytes)
unfolding string_below
uam_bitmap_to_string bitmap = string_below 16 bitmap

unfoldable pub version_named : (name : Bytes) → List AfpVersion → Option ℕ
unfolding c_string
version_named name [] = none
version_named name (p ∷ ps) =
    let later = version_named name ps in
    if str_eq p.av_name (c_string name) then some p.av_number else later

-- The next name, which goes to a buffer of `size` bytes. A longer one is passed over up to there
-- only.
abbrev pub next_name : (size : ℕ) → Bytes → Bytes
next_name size p = drop (((copy_from_pascal p size).1 + 1) % 256) p

-- A name that is not known takes no place.
abbrev pub with_version : Option ℕ → List ℕ → List ℕ
with_version none later = later
with_version (some k) later = k ∷ later

unfoldable pub versions_from : (n : ℕ) → Bytes → List ℕ
unfolding version_named copy_from_pascal
versions_from zero p = []
versions_from (suc n) p =
    with_version (version_named (copy_from_pascal p 33).0 afp_versions)
      (versions_from n (next_name 33 p))

-- At most SERVER_MAX_VERSIONS, which is 10; what is left of the array is 0.
unfoldable pub dsi_parse_versions : (msg : Bytes) → List ℕ
unfolding versions_from
dsi_parse_versions [] = []
dsi_parse_versions (num_versions ∷ p) = versions_from (min num_versions 10) p

unfoldable pub uams_from : (n bitmap : ℕ) → Bytes → ℕ
unfolding uam_string_to_bitmap copy_from_pascal
uams_from zero bitmap p = bitmap
uams_from (suc n) bitmap p =
    uams_from n (bit_or bitmap (uam_string_to_bitmap (copy_from_pascal p 24).0)) (next_name 24 p)

unfoldable pub dsi_parse_uams : (msg : Bytes) → ℕ
unfolding uams_from
dsi_parse_uams [] = 0
dsi_parse_uams (num_uams ∷ p) = uams_from (min num_uams 10) 0 p

-- What a server says of itself. `icon` and `printable` may be left as they were.
pub record Status : Type 0 where
  pub machine_type : Bytes
  pub versions : List ℕ
  pub supported_uams : ℕ
  pub icon : Option Bytes
  pub flags : ℕ
  pub server_name : Bytes
  pub signature : Bytes
  pub server_name_utf8 : Option Bytes
  pub server_name_printable : Option Bytes

-- Some other place of the reply; the reader stays where it is.
abbrev peek : {A : Type 0} → Bytes → (offset : ℕ) → Reader A → Reader A
peek body offset m rest = elim (m (drop offset body)) [
  | none ↦ none
  | some (a, behind) ↦ some (a, rest)
]

-- A name of at most `size` bytes, with the byte that makes an even address.
unfoldable pub read_name : (size : ℕ) → Reader Bytes
unfolding copy_from_pascal jump
read_name size bs =
    let r = copy_from_pascal bs size in let len = r.1 + 1 in some (r.0, drop (len + len % 2) bs)

-- Behind the hint; where no name is there, one byte on.
unfoldable pub utf8_name_at : Bytes → (offset : ℕ) → Bytes
unfolding copy_from_pascal
utf8_name_at body offset =
    let r = copy_from_pascal (drop (offset + 1) body) 255 in
    let next = copy_from_pascal (drop (offset + 2) body) 255 in if r.1 == 0 then next.0 else r.0

unfoldable pub read_status :
    Unicode → (iconv : Bytes → Option Bytes) → (body : Bytes) → Reader Status
unfolding dsi_parse_versions dsi_parse_uams when read_name utf8_name_at convert_utf8dec_to_utf8pre
read_status unicode iconv body = do
  machine ← u16
  version ← u16
  uams ← u16
  icon ← u16
  flags ← u16
  bitmap ← when (ltb 0 icon) (peek body icon (do b ← bytes 256; pure (some b))) none
  name ← read_name 31
  at ← u16
  signature ← peek body at (bytes 16)
  addresses ← when (has flags 0x20) u16 0
  directories ← when (has flags 0x100) u16 0
  utf8 ← when (has flags 0x200) (do offset ← u16; pure (some (utf8_name_at body offset))) none
  pure (record {
    machine_type = (copy_from_pascal (drop machine body) 15).0;
    versions = dsi_parse_versions (drop version body);
    supported_uams = dsi_parse_uams (drop uams body);
    icon = bitmap;
    flags = flags;
    server_name = name;
    signature = signature;
    server_name_utf8 = utf8;
    server_name_printable = elim utf8 [
      | some u ↦ some (convert_utf8dec_to_utf8pre unicode u)
      | none ↦ iconv name
    ];
  })

-- `some none` for a reply that is too short. `iconv` converts to MACINTOSH, or fails.
unfoldable pub dsi_getstatus_reply :
    Unicode → (iconv : Bytes → Option Bytes) → (body : Bytes) → Option (Option Status)
unfolding read_status
dsi_getstatus_reply unicode iconv body =
    let read : Option (Option Status) = elim (read_status unicode iconv body body) [
      | none ↦ none
      | some (s, rest) ↦ some (some s)
    ] in
    if ltb (length body) 18 then some none else read

-- `tx_quantum`
unfoldable pub dsi_opensession_reply : (body : Bytes) → Option ℕ
dsi_opensession_reply body = elim ((do flags ← u8; size ← u8; u32) body) [
  | none ↦ none
  | some (n, rest) ↦ some n
]

-- "The server is going down for maintenance."
abbrev pub going_down : Bytes
going_down =
    b'T' ∷ b'h' ∷ b'e' ∷ 32 ∷ b's' ∷ b'e' ∷ b'r' ∷ b'v' ∷ b'e' ∷ b'r' ∷ 32 ∷ b'i' ∷ b's' ∷ 32 ∷ b'g'
    ∷ b'o' ∷ b'i' ∷ b'n' ∷ b'g' ∷ 32 ∷ b'd' ∷ b'o' ∷ b'w' ∷ b'n' ∷ 32 ∷ b'f' ∷ b'o' ∷ b'r' ∷ 32
    ∷ b'm' ∷ b'a' ∷ b'i' ∷ b'n' ∷ b't' ∷ b'e' ∷ b'n' ∷ b'a' ∷ b'n' ∷ b'c' ∷ b'e' ∷ b'.' ∷ []

-- The flags of an attention, where its packet has them.
unfoldable pub attention_flags : (body : Bytes) → Option ℕ
attention_flags body = elim (u16 body) [ none ↦ none | some (flags, rest) ↦ some flags ]

-- Whether the message of the server is asked for, and whether the connection is given up; `mesg` is
-- what would come.
unfoldable pub dsi_incoming_attention : (body mesg : Bytes) → Bool × Bool
unfolding attention_flags
dsi_incoming_attention body mesg =
    let f = attention_flags body in
    let checkmessage = elim f as (λ x. Bool) [ none ↦ true | some flags ↦ has flags 0x2000 ] in
    let shutdown = elim f as (λ x. Bool) [ none ↦ false | some flags ↦ has flags 0xc000 ] in
    (checkmessage, shutdown || (checkmessage && str_eq (take 41 mesg) going_down))
