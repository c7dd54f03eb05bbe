-- ===== src/Replies/Volumes.antt =====
-- lib/proto_volume.c: the parameters of a volume in the replies to FPOpenVol and FPGetVolParms, and
-- the request that opens it. The test that `p` is within the message stands before anything is
-- read; a read behind it is `none`.
use afpfs_ng.Codepage.{Unicode, convert_utf8dec_to_utf8pre}
use afpfs_ng.Common.{
  ℕ, ◌-◌, ◌%◌, [], ◌∷◌, ◌++◌, Bytes, ◌==◌, Option, none, some, if◌then◌else◌, length, take, drop,
  ltb, replicate, min,
}
use afpfs_ng.Names.{copy_to_pascal}
use afpfs_ng.Proto.Codes.{has}
use afpfs_ng.Replies.Block.{ad_date_to_unix, when}
use afpfs_ng.Replies.Packet.{Packet, Handled, read_body, unless_short, mapped}
use afpfs_ng.Wire.{Reader, ◌>>=◌, pure, be16, u16, u32, u64}

-- The bits kFPVol*Bit.
abbrev pub vol_attribute_bit : ℕ
vol_attribute_bit = 0x1

abbrev pub vol_signature_bit : ℕ
vol_signature_bit = 0x2

abbrev pub vol_create_date_bit : ℕ
vol_create_date_bit = 0x4

abbrev pub vol_mod_date_bit : ℕ
vol_mod_date_bit = 0x8

abbrev pub vol_backup_date_bit : ℕ
vol_backup_date_bit = 0x10

abbrev pub vol_id_bit : ℕ
vol_id_bit = 0x20

abbrev pub vol_bytes_free_bit : ℕ
vol_bytes_free_bit = 0x40

abbrev pub vol_bytes_total_bit : ℕ
vol_bytes_total_bit = 0x80

abbrev pub vol_name_bit : ℕ
vol_name_bit = 0x100

abbrev pub vol_ext_bytes_free_bit : ℕ
vol_ext_bytes_free_bit = 0x200

abbrev pub vol_ext_bytes_total_bit : ℕ
vol_ext_bytes_total_bit = 0x400

abbrev pub vol_block_size_bit : ℕ
vol_block_size_bit = 0x800

-- What a reply fills of a volume, and `struct afp_volume_stats`.
pub record VolumeInfo : Type 0 where
  pub attributes : ℕ
  pub signature : ℕ
  pub creation_date : ℕ
  pub modification_date : ℕ
  pub backup_date : ℕ
  pub volid : ℕ

pub record VolumeStats : Type 0 where
  pub blocksize : ℕ
  pub bytesfree : ℕ
  pub bytestotal : ℕ

abbrev pub date : Reader ℕ
date = do d ← u32; pure (ad_date_to_unix d)

unfoldable pub read_info : (bitmap : ℕ) → VolumeInfo → Reader VolumeInfo
read_info bitmap old = do
  attributes ← when (has bitmap vol_attribute_bit) u16 old.attributes
  signature ← when (has bitmap vol_signature_bit) u16 old.signature
  creation ← when (has bitmap vol_create_date_bit) date old.creation_date
  modification ← when (has bitmap vol_mod_date_bit) date old.modification_date
  backup ← when (has bitmap vol_backup_date_bit) date old.backup_date
  volid ← when (has bitmap vol_id_bit) u16 old.volid
  pure (record {
    attributes = attributes;
    signature = signature;
    creation_date = creation;
    modification_date = modification;
    backup_date = backup;
    volid = volid;
  })

-- A long number replaces a short one. The offset of the name is not used.
unfoldable pub read_stats : (bitmap : ℕ) → VolumeStats → Reader VolumeStats
read_stats bitmap old = do
  free ← when (has bitmap vol_bytes_free_bit) u32 old.bytesfree
  total ← when (has bitmap vol_bytes_total_bit) u32 old.bytestotal
  name ← when (has bitmap vol_name_bit) u16 0
  free' ← when (has bitmap vol_ext_bytes_free_bit) u64 free
  total' ← when (has bitmap vol_ext_bytes_total_bit) u64 total
  size ← when (has bitmap vol_block_size_bit) u32 old.blocksize
  pure (record { blocksize = size; bytesfree = free'; bytestotal = total' })

unfoldable pub parse_volbitmap_reply :
    (bitmap : ℕ) → VolumeInfo → VolumeStats → Reader (VolumeInfo × VolumeStats)
unfolding read_info read_stats
parse_volbitmap_reply bitmap volume stat = do
  volume' ← read_info bitmap volume
  stat' ← read_stats bitmap stat
  pure (volume', stat')

unfoldable pub afp_getvolparms_reply :
    Packet → VolumeInfo → VolumeStats → Handled (VolumeInfo × VolumeStats)
unfolding read_body
afp_getvolparms_reply packet volume stat =
    unless_short 2 packet.body
      (read_body (do bitmap ← u16; parse_volbitmap_reply bitmap volume stat) packet.body)

-- The name to print; the bytes behind the first 27 are the old ones.
unfoldable pub printable_name : Unicode → (attributes : ℕ) → (volume_name old : Bytes) → Bytes
unfolding convert_utf8dec_to_utf8pre
printable_name unicode attributes volume_name old =
    if has attributes 0x40
    then convert_utf8dec_to_utf8pre unicode volume_name
    else if ltb (length volume_name) 27
    then volume_name
    else take 27 volume_name ++ drop 27 old

-- The statistics are not stored.
unfoldable pub afp_volopen_reply :
    Unicode → Packet → VolumeInfo → (volume_name old : Bytes) → Handled (VolumeInfo × Bytes)
unfolding read_body
afp_volopen_reply unicode packet volume volume_name old =
    let unread : VolumeStats = record { blocksize = 0; bytesfree = 0; bytestotal = 0 } in
    let parsed : Handled (VolumeInfo × VolumeStats) =
      read_body (do bitmap ← u16; parse_volbitmap_reply bitmap volume unread) packet.body in
    unless_short 2 packet.body
      (mapped (λ r. (r.0, printable_name unicode r.0.attributes volume_name old)) parsed)

-- The password in its eight bytes.
unfoldable pub volpass : Bytes → Bytes
volpass password =
    let len2 = min (length password % 256) 8 in take len2 password ++ replicate (8 - len2) 0

-- The password begins at an even address; `junk` is the byte in front of it, which the source does
-- not fill.
unfoldable pub afp_volopen :
    (junk bitmap : ℕ) → (volume_name : Bytes) → (password : Option Bytes) → Bytes
unfolding volpass
afp_volopen junk bitmap volume_name password =
    let pad = if length volume_name % 2 == 0 then junk ∷ [] else [] in
    let tail : Bytes = elim password [ none ↦ [] | some p ↦ pad ++ volpass p ] in
    24 ∷ 0 ∷ (be16 bitmap ++ (copy_to_pascal volume_name ++ tail))
