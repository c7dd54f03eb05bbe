-- ===== src/LowLevel/Attr.antt =====
-- `ll_getattr` of lib/lowlevel.c.
use afpfs_ng.Common.{
  ℕ, ◌+◌, ◌*◌, ◌/◌, [], ◌∷◌, Bytes, Bool, false, ◌&&◌, bit_and, bit_or, ltb, ◌==◌, not, none, some,
  if◌then◌else◌, Ret, val, fail, eacces, enoent, eio, enametoolong,
}
use afpfs_ng.Did.Cache.{str_eq}
use afpfs_ng.Did.Lookup.{get_dirid, filled}
use afpfs_ng.Names.{invalid_filename}
use afpfs_ng.Proto.Calls.{get_file_dir_parms}
use afpfs_ng.Proto.Codes
use afpfs_ng.Proto.Codes.{Code, no_err, access_denied, object_not_found, has}
use afpfs_ng.Volume.{Volume, World, FileInfo, M, request}
use afpfs_ng.Volume.Users.{translate_uidgid_to_client}

-- The fields of `struct stat` that are set.
pub record Stat : Type 0 where
  pub mode : ℕ
  pub uid : ℕ
  pub gid : ℕ
  pub nlink : ℕ
  pub size : ℕ
  pub blksize : ℕ
  pub blocks : ℕ
  pub ctime : ℕ
  pub mtime : ℕ

abbrev pub empty_stat : Stat
empty_stat = record {
  mode = 0;
  uid = 0;
  gid = 0;
  nlink = 0;
  size = 0;
  blksize = 0;
  blocks = 0;
  ctime = 0;
  mtime = 0;
}

-- S_IFDIR and S_IFREG on Unix.
abbrev pub s_ifdir : ℕ
s_ifdir = 0x4000

abbrev pub s_ifreg : ℕ
s_ifreg = 0x8000

-- 0700 or 0600, with the type.
unfoldable pub set_nonunix_perms : FileInfo → ℕ
set_nonunix_perms fp = if fp.isdir then bit_or 448 s_ifdir else bit_or 384 s_ifreg

unfoldable pub attr_dirbitmap : Volume → ℕ
attr_dirbitmap v =
    Codes.attribute_bit
    + Codes.create_date_bit
    + Codes.mod_date_bit
    + Codes.node_id_bit
    + Codes.parent_dir_id_bit
    + Codes.offspring_count_bit
    + (if v.extra_flags.vol_supports_unix
        then Codes.unix_privs_bit
        else Codes.owner_id_bit + Codes.group_id_bit)

unfoldable pub attr_filebitmap : Volume → (resource : Bool) → ℕ
attr_filebitmap v resource =
    let short = if resource then Codes.rsrc_fork_len_bit else Codes.data_fork_len_bit in
    let long = if resource then Codes.ext_rsrc_fork_len_bit else Codes.ext_data_fork_len_bit in
    Codes.attribute_bit
    + Codes.create_date_bit
    + Codes.mod_date_bit
    + Codes.node_id_bit
    + Codes.finder_info_bit
    + Codes.parent_dir_id_bit
    + (if ltb v.av_number 30 then short else long)
    + (if v.extra_flags.vol_supports_unix then Codes.unix_privs_bit else 0)

unfoldable pub getattr_result : Code → Ret
getattr_result access_denied = fail eacces
getattr_result object_not_found = fail enoent
getattr_result no_err = val 0
getattr_result _ = fail eio

-- What the struct says of the file or directory. `owner` is its user and group on the client.
unfoldable pub stat_of : Volume → FileInfo → (resource : Bool) → (owner : ℕ × ℕ) → Stat
unfolding set_nonunix_perms
stat_of v fp resource owner =
    let mode = if v.extra_flags.vol_supports_unix then fp.permissions else set_nonunix_perms fp in
    let dir = not (bit_and mode s_ifdir == 0) in
    let length = if resource then fp.resourcesize else fp.size in
    let old = ltb v.av_number 30 && dir in
    record {
      mode = mode;
      uid = owner.0;
      gid = owner.1;
      nlink = if dir then fp.offspring + 2 else 1;
      size = if dir then fp.offspring * 34 + 24 else length;
      blksize = if dir then 0 else 4096;
      blocks = if dir then 0 else length / 4096;
      ctime = if old then v.connect_time else fp.creation_date;
      mtime = if old then v.connect_time else fp.modification_date;
    }

-- What is filled in before the owner is translated.
abbrev unowned : Volume → FileInfo → Stat
unowned v fp =
    let full = stat_of v fp false (fp.uid, fp.gid) in
    record empty_stat { mode = full.mode; uid = fp.uid; gid = fp.gid }

-- The request, at the place that was found.
unfoldable pub attr_at : World → Bytes → (resource : Bool) → (dirid : ℕ) → Bytes → M (Ret × Stat)
unfolding attr_dirbitmap attr_filebitmap getattr_result stat_of translate_uidgid_to_client
attr_at w path resource dirid basename v =
    let root = ltb v.av_number 30 && str_eq path (b'/' ∷ []) in
    let name = if root then v.volume_name else basename in
    let did = if root then 1 else dirid in
    let r =
      request w
        (get_file_dir_parms v.volid did (attr_filebitmap v resource) (attr_dirbitmap v) name) v in
    let fp = filled r.0 w.junk in
    elim (getattr_result r.0.code) [
      | fail e ↦ ((fail e, empty_stat), r.1)
      | val n ↦ elim (translate_uidgid_to_client r.1 fp.uid fp.gid) [
        | none ↦ ((fail eio, unowned r.1 fp), r.1)
        | some owner ↦ ((val 0, stat_of r.1 fp resource owner), r.1)
      ]
    ]

unfoldable pub ll_getattr : World → Bytes → (resource : Bool) → M (Ret × Stat)
unfolding get_dirid attr_at
ll_getattr w path resource v =
    let at = get_dirid w path v in
    let found : (Ret × Stat) × Volume = elim at.0 [
      | none ↦ ((fail enoent, empty_stat), at.1)
      | some (dirid, basename) ↦ attr_at w path resource dirid basename at.1
    ] in
    if invalid_filename v.av_number v.path_encoding path
    then ((fail enametoolong, empty_stat), v)
    else found
