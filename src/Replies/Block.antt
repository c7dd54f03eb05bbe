-- ===== src/Replies/Block.antt =====
-- `parse_reply_block` of lib/proto_replyblock.c. The pointer `p2` into `buf` is a reader of what is
-- left of it; `none` is a read behind the end of the buffer, which the source does not guard.
use afpfs_ng.Common.{
  ℕ, ◌+◌, ◌%◌, [], Bytes, Bool, true, false, not, Option, none, some, if◌then◌else◌, drop,
  replicate,
}
use afpfs_ng.Names.{copy_from_pascal, copy_from_pascal_two}
use afpfs_ng.Proto.Codes
use afpfs_ng.Proto.Codes.{has}
use afpfs_ng.Volume.{FileInfo}
use afpfs_ng.Wire.{Reader, ◌>>=◌, pure, u16, u32, u64, bytes}

-- `if (bitmap & bit)` round the reading of a field, which is else 0 from the `memset`.
unfoldable pub when : {A : Type 0} → Bool → Reader A → A → Reader A
when true m zero = m
when false m zero = pure zero

-- `p2 += n`, with nothing read.
unfoldable pub jump : ℕ → Reader (Unit {0})
jump n bs = some (tt, drop n bs)

-- AD_DATE_TO_UNIX (lib/afp_internal.h) on 32 bits.
abbrev pub ad_date_to_unix : ℕ → ℕ
ad_date_to_unix date = (date + 946684800) % 4294967296

abbrev pub afp_max_path : ℕ
afp_max_path = 768

-- The address is the caller's, which keeps its place.
unfoldable pub cleared : ℕ → FileInfo
cleared ptr = record {
  ptr = ptr;
  name = [];
  basename = [];
  did = 0;
  fileid = 0;
  isdir = false;
  offspring = 0;
  creation_date = 0;
  modification_date = 0;
  backup_date = 0;
  attributes = 0;
  uid = 0;
  gid = 0;
  permissions = 0;
  ua_permissions = 0;
  accessrights = 0;
  size = 0;
  resourcesize = 0;
  finderinfo = replicate 32 0;
  resource = 0;
  forkid = 0;
  eof = false;
}

-- The fields up to the node ID, which files and directories share. The long name is an offset from
-- the start of the buffer.
pub record Shared : Type 0 where
  pub attributes : ℕ
  pub did : ℕ
  pub creation_date : ℕ
  pub modification_date : ℕ
  pub backup_date : ℕ
  pub finderinfo : Bytes
  pub long_name : ℕ
  pub fileid : ℕ

unfoldable pub read_shared : ℕ → Reader Shared
read_shared bitmap = do
  attributes ← when (has bitmap Codes.attribute_bit) u16 0
  did ← when (has bitmap Codes.parent_dir_id_bit) u32 0
  creation ← when (has bitmap Codes.create_date_bit) u32 0
  modification ← when (has bitmap Codes.mod_date_bit) u32 0
  backup ← when (has bitmap Codes.backup_date_bit) u32 0
  finderinfo ← when (has bitmap Codes.finder_info_bit) (bytes 32) (replicate 32 0)
  long ← when (has bitmap Codes.long_name_bit) u16 0
  short ← when (has bitmap Codes.short_name_bit) (jump 2) tt
  fileid ← when (has bitmap Codes.node_id_bit) u32 0
  pure (record {
    attributes = attributes;
    did = did;
    creation_date = creation;
    modification_date = modification;
    backup_date = backup;
    finderinfo = finderinfo;
    long_name = long;
    fileid = fileid;
  })

-- The fields of directories alone.
pub record OfDir : Type 0 where
  pub offspring : ℕ
  pub uid : ℕ
  pub gid : ℕ
  pub accessrights : ℕ

unfoldable pub read_dir : ℕ → Reader OfDir
read_dir bitmap = do
  offspring ← when (has bitmap Codes.offspring_count_bit) u16 0
  uid ← when (has bitmap Codes.owner_id_bit) u32 0
  gid ← when (has bitmap Codes.group_id_bit) u32 0
  accessrights ← when (has bitmap Codes.access_rights_bit) u32 0
  pure (record { offspring = offspring; uid = uid; gid = gid; accessrights = accessrights })

-- The fields of files alone: the lengths of the forks. A long one replaces a short one.
-- `resourcesize` is an unsigned short in the struct.
pub record OfFile : Type 0 where
  pub size : ℕ
  pub resourcesize : ℕ

unfoldable pub read_file : ℕ → Reader OfFile
read_file bitmap = do
  short ← when (has bitmap Codes.data_fork_len_bit) u32 0
  resource ← when (has bitmap Codes.rsrc_fork_len_bit) u32 0
  size ← when (has bitmap Codes.ext_data_fork_len_bit) u64 short
  launch ← when (has bitmap Codes.launch_limit_bit) (jump 2) tt
  pure (record { size = size; resourcesize = resource % 65536 })

-- The fields at the end. The UTF-8 name is an offset, and 4 bytes of padding follow.
pub record AtEnd : Type 0 where
  pub utf8_name : ℕ
  pub resourcesize : ℕ
  pub uid : ℕ
  pub gid : ℕ
  pub permissions : ℕ
  pub ua_permissions : ℕ

unfoldable pub read_end : ℕ → (resourcesize uid gid : ℕ) → Reader AtEnd
read_end bitmap resourcesize uid gid = do
  utf8 ← when (has bitmap Codes.utf8_name_bit) u16 0
  pad ← when (has bitmap Codes.utf8_name_bit) (jump 4) tt
  resource ← when (has bitmap Codes.ext_rsrc_fork_len_bit) u64 resourcesize
  uid' ← when (has bitmap Codes.unix_privs_bit) u32 uid
  gid' ← when (has bitmap Codes.unix_privs_bit) u32 gid
  permissions ← when (has bitmap Codes.unix_privs_bit) u32 0
  ua ← when (has bitmap Codes.unix_privs_bit) u32 0
  pure (record {
    utf8_name = utf8;
    resourcesize = resource % 65536;
    uid = uid';
    gid = gid';
    permissions = permissions;
    ua_permissions = ua;
  })

-- The date of a field that is asked for.
abbrev pub date_of : Bool → ℕ → ℕ
date_of asked date = if asked then ad_date_to_unix date else 0

-- The name: the long one, which a UTF-8 one replaces.
unfoldable pub name_of : Bytes → ℕ → (long utf8 : ℕ) → Bytes
name_of buf bitmap long utf8 =
    let first =
      if has bitmap Codes.long_name_bit
      then (copy_from_pascal (drop long buf) afp_max_path).0
      else [] in
    if has bitmap Codes.utf8_name_bit
    then (copy_from_pascal_two first (drop (utf8 + 4) buf) afp_max_path).0
    else first

abbrev pub no_dir : OfDir
no_dir = record { offspring = 0; uid = 0; gid = 0; accessrights = 0 }

abbrev pub no_file : OfFile
no_file = record { size = 0; resourcesize = 0 }

unfoldable pub read_block : Bytes → Bool → (bitmap ptr : ℕ) → Reader FileInfo
unfolding when jump cleared read_shared read_dir read_file read_end name_of
read_block buf isdir bitmap ptr = do
  s ← read_shared bitmap
  d ← when isdir (read_dir bitmap) no_dir
  f ← when (not isdir) (read_file bitmap) no_file
  e ← read_end bitmap f.resourcesize d.uid d.gid
  pure (record (cleared ptr) {
    isdir = isdir;
    attributes = s.attributes;
    did = s.did;
    creation_date = date_of (has bitmap Codes.create_date_bit) s.creation_date;
    modification_date = date_of (has bitmap Codes.mod_date_bit) s.modification_date;
    backup_date = date_of (has bitmap Codes.backup_date_bit) s.backup_date;
    finderinfo = s.finderinfo;
    fileid = s.fileid;
    offspring = d.offspring;
    accessrights = d.accessrights;
    size = f.size;
    resourcesize = e.resourcesize;
    uid = e.uid;
    gid = e.gid;
    permissions = e.permissions;
    ua_permissions = e.ua_permissions;
    name = name_of buf bitmap s.long_name e.utf8_name;
  })

unfoldable pub parse_reply_block : Bytes → Bool → (filebitmap dirbitmap ptr : ℕ) → Option FileInfo
unfolding read_block
parse_reply_block buf isdir filebitmap dirbitmap ptr =
    elim (read_block buf isdir (if isdir then dirbitmap else filebitmap) ptr buf) [
      | none ↦ none
      | some (info, rest) ↦ some info
    ]
