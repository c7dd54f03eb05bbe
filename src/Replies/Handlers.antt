-- ===== src/Replies/Handlers.antt =====
-- The handlers of the other replies, in lib/proto_files.c, proto_fork.c, proto_directory.c,
-- proto_map.c, proto_server.c, proto_desktop.c, proto_login.c and proto_session.c. Where a struct
-- of the reply has a fixed size, the packet is read only if it is not shorter.
use afpfs_ng.Codepage.{Unicode, convert_utf8dec_to_utf8pre}
use afpfs_ng.Common.{
  ℕ, zero, suc, ◌+◌, ◌-◌, ◌/◌, List, [], ◌∷◌, Bytes, not, ◌||◌, ltb, leb, ◌==◌, Option, none, some,
  if◌then◌else◌, length, take, drop, min,
}
use afpfs_ng.Names.{copy_from_pascal, copy_from_pascal_two}
use afpfs_ng.Proto.Codes.{has}
use afpfs_ng.Replies.Block.{ad_date_to_unix}
use afpfs_ng.Replies.Packet.{
  Packet, ntohl, Handled, stored, failed, overread, returned, read_body, mapped, unless_short,
}
use afpfs_ng.Wire.{Reader, ◌>>=◌, pure, u8, u16, u32, u64}

-- What `afp_read_reply` and `afp_readext_reply`, which have one body, put into the buffer, with the
-- error code.
unfoldable pub afp_read_reply : Packet → (rx_quantum : ℕ) → Bytes × ℕ
unfolding ntohl
afp_read_reply packet rx_quantum = (take rx_quantum packet.body, ntohl packet.error_code)

-- `*written`, of 32 bits: `ntohl` of a field of 64 bits takes its low half as the host reads it,
-- which is the high half of the number.
unfoldable pub afp_write_reply : Packet → ℕ
afp_write_reply packet = elim (u64 packet.body) [ none ↦ 0 | some (n, rest) ↦ n / 4294967296 ]

unfoldable pub afp_writeext_reply : Packet → ℕ
afp_writeext_reply packet = elim (u64 packet.body) [ none ↦ 0 | some (n, rest) ↦ n ]

-- kFPDenyConflict, as 32 bits.
abbrev deny_conflict : ℕ
deny_conflict = 4294962290

-- The fork ID, `none` where it is not stored.
unfoldable pub afp_openfork_reply : Packet → Handled (Option ℕ)
unfolding read_body
afp_openfork_reply packet =
    if (packet.error_code == 0) || (packet.error_code == deny_conflict)
    then unless_short 4 packet.body
        (read_body (do bitmap ← u16; id ← u16; pure (some id)) packet.body)
    else stored none

-- `*offset`, with the error code that is returned; as for `afp_write_reply`.
unfoldable pub afp_byterangelock_reply : Packet → ℕ × ℕ
unfolding afp_write_reply
afp_byterangelock_reply packet = (afp_write_reply packet, packet.error_code)

unfoldable pub afp_byterangelockext_reply : Packet → ℕ × ℕ
unfolding afp_writeext_reply
afp_byterangelockext_reply packet = (afp_writeext_reply packet, packet.error_code)

-- `*dir_p` is 0 in any case: the ID of the directory is not read.
unfoldable pub afp_createdir_reply : Packet → Handled ℕ
afp_createdir_reply packet =
    if packet.error_code == 0
    then unless_short 4 packet.body (stored 0)
    else returned packet.error_code

unfoldable pub afp_blank_reply : Packet → ℕ
afp_blank_reply packet = packet.error_code

-- The IDs of the user and the group. The bitmap is read before the error is looked at.
unfoldable pub afp_getuserinfo_reply : Packet → Handled (ℕ × ℕ)
afp_getuserinfo_reply packet = elim (u16 packet.body) [
  | none ↦ overread
  | some (bitmap, p) ↦
      let one : Handled ℕ = elim (u32 p) [ none ↦ overread | some (n, q) ↦ stored n ] in
      let two : Handled (ℕ × ℕ) = elim (u32 p) [
        | none ↦ overread
        | some (n, q) ↦ elim (u32 q) [ none ↦ overread | some (m, r) ↦ stored (n, m) ]
      ] in
      if not (packet.error_code == 0)
      then failed
      else if has bitmap 1
      then (if has bitmap 2 then two else mapped (λ n. (n, 0)) one)
      else if has bitmap 2
      then mapped (λ n. (0, n)) one
      else stored (0, 0)
]

-- A name of 255 bytes at most; `old` stays where it is empty.
unfoldable pub afp_mapid_reply : Packet → (old : Bytes) → Handled Bytes
afp_mapid_reply packet old =
    if packet.error_code == 0 then stored (copy_from_pascal_two old packet.body 255).0 else failed

unfoldable pub afp_mapname_reply : Packet → Handled ℕ
unfolding read_body
afp_mapname_reply packet = read_body u32 packet.body

-- A message, by the bit AFP_GETSRVRMSG_UTF8.
unfoldable pub afp_getsrvrmsg_reply : Packet → (old : Bytes) → Handled Bytes
afp_getsrvrmsg_reply packet old =
    let message : Handled Bytes = elim ((do kind ← u16; u16) packet.body) [
      | none ↦ overread
      | some (bitmap, src) ↦ stored (
          if has bitmap 2
          then (copy_from_pascal_two old src 200).0
          else (copy_from_pascal src 200).0)
    ] in
    unless_short 4 packet.body message

unfoldable pub afp_geticon_reply : Packet → (maxsize : ℕ) → Handled Bytes
afp_geticon_reply packet maxsize = unless_short maxsize packet.body (stored packet.body)

-- The first 255 bytes at most; `size-sizeof` of an unsigned size wraps round with no byte behind
-- the header, and the length byte is then read behind the packet.
unfoldable pub afp_getcomment_reply : Packet → (maxsize : ℕ) → Handled Bytes
afp_getcomment_reply packet maxsize = elim packet.body [
  | [] ↦ overread
  | n ∷ text ↦ stored (take (min (min (length text) maxsize) n) text)
]

unfoldable pub afp_opendt_reply : Packet → Handled ℕ
unfolding read_body
afp_opendt_reply packet = unless_short 2 packet.body (read_body u16 packet.body)

-- `afp_login_reply` and `afp_changepassword_reply`, which have one body: what is put into the
-- buffer, if there is one.
unfoldable pub afp_login_reply : Packet → (maxsize : Option ℕ) → Option Bytes
afp_login_reply packet none = none
afp_login_reply packet (some maxsize) = some (take maxsize packet.body)

-- The token, `none` for a length of 0. `length` is that of the header's field, which counts what
-- follows the header, though 16 is taken from it.
unfoldable pub afp_getsessiontoken_reply : Packet → (header_length : ℕ) → Handled Bytes
afp_getsessiontoken_reply packet header_length =
    let token : Handled Bytes = elim (u32 packet.body) [
      | none ↦ overread
      | some (n, p) ↦
          if ltb 256 n || ltb (header_length - 16) n
          then failed
          else if ltb (length p) n
          then overread
          else stored (take n p)
    ] in
    if leb header_length 16 then stored [] else token

-- A volume of the list: its flags, its name, and its name to show.
pub record Listed : Type 0 where
  pub flags : ℕ
  pub volume_name : Bytes
  pub printable : Bytes

-- The loop over the volumes. The next one is looked for behind what was copied of the name.
unfoldable pub read_volumes : Unicode → (av_number count : ℕ) → Bytes → Handled (List Listed)
read_volumes unicode av_number zero p = stored []
read_volumes unicode av_number (suc count) [] = overread
read_volumes unicode av_number (suc count) (flags ∷ []) = overread
read_volumes unicode av_number (suc count) (flags ∷ p) =
    let old = ltb av_number 30 in
    let name = copy_from_pascal p (if old then 27 else 255) in
    let volume : Listed = record {
      flags = flags;
      volume_name = name.0;
      printable = if old then name.0 else convert_utf8dec_to_utf8pre unicode name.0;
    } in
    mapped (◌∷◌ volume) (read_volumes unicode av_number count (drop (name.1 + 1) p))

abbrev server_head : Reader (ℕ × ℕ)
server_head = do time ← u32; count ← u8; pure (time, count)

-- The time of the connection and the volumes.
unfoldable pub afp_getsrvrparms_reply :
    Unicode → (av_number : ℕ) → Packet → Handled (ℕ × List Listed)
unfolding read_volumes
afp_getsrvrparms_reply unicode av_number packet =
    let found : Handled (ℕ × List Listed) = elim (server_head packet.body) [
      | none ↦ overread
      | some (head, p) ↦
          mapped (λ volumes. (ad_date_to_unix head.0, volumes))
            (read_volumes unicode av_number head.1 p)
    ] in
    unless_short 5 packet.body found
