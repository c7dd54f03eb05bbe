-- ===== src/Replies/VolumeParams.antt =====
-- The client reads the parameters of a volume that a server lays out.
use afpfs_ng.Common.{
  ℕ, ◌%◌, ◌<◌, ◌≡◌, refl, ◌++◌, Bytes, Bool, false, some, if◌then◌else◌, length, ltb, arith,
}
use afpfs_ng.Proto.Codes.{has}
use afpfs_ng.Replies.Block.{ad_date_to_unix, when}
use afpfs_ng.Replies.Layout.{asked, when-asked, when_laws}
use afpfs_ng.Replies.Packet.{stored, read_body}
use afpfs_ng.Replies.Volumes.{
  VolumeInfo, VolumeStats, date, read_info, read_stats, parse_volbitmap_reply,
  afp_getvolparms_reply, vol_attribute_bit, vol_signature_bit, vol_create_date_bit,
  vol_mod_date_bit, vol_backup_date_bit, vol_id_bit, vol_bytes_free_bit, vol_bytes_total_bit,
  vol_name_bit, vol_ext_bytes_free_bit, vol_ext_bytes_total_bit, vol_block_size_bit,
}
use afpfs_ng.Wire.{◌>>=◌, be16, be32, be64, u16}
use afpfs_ng.Wire.Laws.{u32-be32, u16-be16}

-- The parameters of a volume as the AFP reference lays them out.
pub record VolParams : Type 0 where
  pub attributes : ℕ
  pub signature : ℕ
  pub created : ℕ
  pub modified : ℕ
  pub backed_up : ℕ
  pub volid : ℕ
  pub free : ℕ
  pub total : ℕ
  pub name : ℕ
  pub ext_free : ℕ
  pub ext_total : ℕ
  pub block_size : ℕ

unfoldable pub lay_info : ℕ → VolParams → Bytes → Bytes
lay_info bitmap p rest =
    asked (has bitmap vol_attribute_bit) (be16 p.attributes)
    ++ (asked (has bitmap vol_signature_bit) (be16 p.signature)
        ++ (asked (has bitmap vol_create_date_bit) (be32 p.created)
            ++ (asked (has bitmap vol_mod_date_bit) (be32 p.modified)
                ++ (asked (has bitmap vol_backup_date_bit) (be32 p.backed_up)
                    ++ (asked (has bitmap vol_id_bit) (be16 p.volid) ++ rest)))))

unfoldable pub lay_stats : ℕ → VolParams → Bytes → Bytes
lay_stats bitmap p rest =
    asked (has bitmap vol_bytes_free_bit) (be32 p.free)
    ++ (asked (has bitmap vol_bytes_total_bit) (be32 p.total)
        ++ (asked (has bitmap vol_name_bit) (be16 p.name)
            ++ (asked (has bitmap vol_ext_bytes_free_bit) (be64 p.ext_free)
                ++ (asked (has bitmap vol_ext_bytes_total_bit) (be64 p.ext_total)
                    ++ (asked (has bitmap vol_block_size_bit) (be32 p.block_size) ++ rest)))))

-- What is asked for, to its width, and else the old value.
abbrev pub info_of : ℕ → VolumeInfo → VolParams → VolumeInfo
info_of bitmap old p = record {
  attributes = if has bitmap vol_attribute_bit then p.attributes % 65536 else old.attributes;
  signature = if has bitmap vol_signature_bit then p.signature % 65536 else old.signature;
  creation_date =
      if has bitmap vol_create_date_bit
      then ad_date_to_unix (p.created % 4294967296)
      else old.creation_date;
  modification_date =
      if has bitmap vol_mod_date_bit
      then ad_date_to_unix (p.modified % 4294967296)
      else old.modification_date;
  backup_date =
      if has bitmap vol_backup_date_bit
      then ad_date_to_unix (p.backed_up % 4294967296)
      else old.backup_date;
  volid = if has bitmap vol_id_bit then p.volid % 65536 else old.volid;
}

abbrev pub stats_of : ℕ → VolumeStats → VolParams → VolumeStats
stats_of bitmap old p = record {
  blocksize = if has bitmap vol_block_size_bit then p.block_size % 4294967296 else old.blocksize;
  bytesfree =
      if has bitmap vol_ext_bytes_free_bit
      then p.ext_free % 18446744073709551616
      else if has bitmap vol_bytes_free_bit
      then p.free % 4294967296
      else old.bytesfree;
  bytestotal =
      if has bitmap vol_ext_bytes_total_bit
      then p.ext_total % 18446744073709551616
      else if has bitmap vol_bytes_total_bit
      then p.total % 4294967296
      else old.bytestotal;
}

when-date :
    (b : Bool) (rest : Bytes) (d n : ℕ)
    → when b date d (asked b (be32 n) ++ rest)
      ≡ some ((if b then ad_date_to_unix (n % 4294967296) else d), rest)
when-date b rest d n =
    when-asked b date d (ad_date_to_unix (n % 4294967296)) (be32 n) rest (simp (◌>>=◌, u32-be32))

read_info-lay_info :
    (bitmap : ℕ) (old : VolumeInfo) (p : VolParams) (rest : Bytes)
    → read_info bitmap old (lay_info bitmap p rest) ≡ some (info_of bitmap old p, rest)
unfolding read_info lay_info
read_info-lay_info bitmap old p rest = simp (when_laws, when-date)

read_stats-lay_stats :
    (bitmap : ℕ) (old : VolumeStats) (p : VolParams) (rest : Bytes)
    → read_stats bitmap old (lay_stats bitmap p rest) ≡ some (stats_of bitmap old p, rest)
unfolding read_stats lay_stats
read_stats-lay_stats bitmap old p rest = simp when_laws

parse_volbitmap_reply_lem :
    (bitmap : ℕ) (volume : VolumeInfo) (stat : VolumeStats) (p : VolParams) (rest : Bytes)
    → parse_volbitmap_reply bitmap volume stat (lay_info bitmap p (lay_stats bitmap p rest))
      ≡ some ((info_of bitmap volume p, stats_of bitmap stat p), rest)
unfolding parse_volbitmap_reply
parse_volbitmap_reply_lem bitmap volume stat p rest =
    simp (◌>>=◌, read_info-lay_info bitmap volume p, read_stats-lay_stats bitmap stat p)

long_enough : (n : ℕ) (rest : Bytes) → ltb (length (be16 n ++ rest)) 2 ≡ false
unfolding be16
long_enough n rest = ground arith

read_reply_lem :
    (bitmap : ℕ) (volume : VolumeInfo) (stat : VolumeStats) (p : VolParams) (rest : Bytes)
    → bitmap < 65536
    → (do b ← u16; parse_volbitmap_reply b volume stat)
        (be16 bitmap ++ lay_info bitmap p (lay_stats bitmap p rest))
      ≡ some ((info_of bitmap volume p, stats_of bitmap stat p), rest)
read_reply_lem bitmap volume stat p rest h =
    let b : bitmap % 65536 ≡ bitmap = omega arith in
    simp (◌>>=◌, u16-be16, b, parse_volbitmap_reply_lem bitmap volume stat p)

-- From a reply to FPGetVolParms with any bitmap of 16 bits and the parameters in the order of the
-- AFP reference, the client gets the values that are asked for, each to the width of its field,
-- with dates in Unix time and the long sizes in place of the short ones; the others stay as they
-- were.
pub afp_getvolparms_reply-layout :
    (bitmap : ℕ) (volume : VolumeInfo) (stat : VolumeStats) (p : VolParams) (rest : Bytes)
    → bitmap < 65536
    → let body = be16 bitmap ++ lay_info bitmap p (lay_stats bitmap p rest) in
      afp_getvolparms_reply (record { error_code = 0; body = body }) volume stat
      ≡ stored (info_of bitmap volume p, stats_of bitmap stat p)
unfolding afp_getvolparms_reply read_body
afp_getvolparms_reply-layout bitmap volume stat p rest h =
    let params = lay_info bitmap p (lay_stats bitmap p rest) in
    rw (long_enough bitmap params) (rw (read_reply_lem bitmap volume stat p rest h, read_body) refl)
