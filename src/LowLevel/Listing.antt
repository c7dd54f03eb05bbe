-- ===== src/LowLevel/Listing.antt =====
-- `ll_readdir` of lib/lowlevel.c.
use afpfs_ng.Codepage.{convert_path_to_unix}
use afpfs_ng.Common.{
  ℕ, zero, suc, ◌+◌, ◌%◌, List, [], ◌++◌, map, Bytes, Bool, ltb, Option, none, some, if◌then◌else◌,
  length, Ret, val, fail, Errno, eacces, enoent, eio, enametoolong,
}
use afpfs_ng.Did.Lookup.{get_dirid}
use afpfs_ng.LowLevel.Attr.{set_nonunix_perms}
use afpfs_ng.LowLevel.Locks.{has_ext}
use afpfs_ng.Names.{invalid_filename}
use afpfs_ng.Proto.Calls.{Call, enumerate, enumerate_ext2}
use afpfs_ng.Proto.Codes
use afpfs_ng.Proto.Codes.{
  Code, no_err, not_sent, access_denied, object_not_found, dir_not_found, bitmap_err, misc_err,
  object_type_err, param_err, call_not_supported, is_no_err,
}
use afpfs_ng.Volume.{Volume, World, FileInfo, Reply, M, request}

-- The bits that files and directories share, and the name by the server's encoding.
abbrev common_bits : Volume → ℕ
common_bits v =
    Codes.attribute_bit
    + Codes.parent_dir_id_bit
    + Codes.create_date_bit
    + Codes.mod_date_bit
    + Codes.backup_date_bit
    + Codes.node_id_bit
    + (if v.extra_flags.vol_supports_unix then Codes.unix_privs_bit else 0)
    + (if v.attr_utf8_names
        then Codes.utf8_name_bit
        else Codes.long_name_bit + Codes.short_name_bit)

unfoldable pub list_dirbitmap : Volume → ℕ
list_dirbitmap v =
    common_bits v + Codes.offspring_count_bit + Codes.owner_id_bit + Codes.group_id_bit

unfoldable pub list_filebitmap : Volume → (resource : Bool) → ℕ
list_filebitmap v resource =
    common_bits v
    + (if resource
        then Codes.rsrc_fork_len_bit
        else if ltb v.av_number 30
        then Codes.data_fork_len_bit
        else Codes.ext_data_fork_len_bit)

-- A request for 20 entries from an index on.
unfoldable pub list_from : Volume → (resource : Bool) → (dirid index : ℕ) → Bytes → Call
unfolding list_filebitmap list_dirbitmap
list_from v resource dirid startindex name =
    let files = list_filebitmap v resource in
    let dirs = list_dirbitmap v in
    if has_ext v
    then enumerate_ext2 v.volid dirid files dirs 20 startindex name
    else enumerate v.volid dirid files dirs 20 startindex name

-- How far the index goes: `afp_enumerate` takes an unsigned short, and `afp_enumerateext2` sends 32
-- bits.
abbrev pub index_limit : Bool → ℕ
index_limit ext = if ext then 4294967296 else 65536

-- The request of the loop, for the next entries.
unfoldable pub list_call : Volume → (resource : Bool) → (dirid startindex : ℕ) → Bytes → Call
unfolding list_from
list_call v resource dirid startindex name =
    list_from v resource dirid (startindex % index_limit (has_ext v)) name

-- What the loop does after a batch. A result that is not listed changes nothing, and the loop goes
-- on.
pub data Next : Type 0 where
  keep last ask_again : Next
  -- "exit++", with `ret` set but not returned.
  stop : Next
  leave : Errno → Next

unfoldable pub next_of : Code → Next
next_of not_sent = leave eio
next_of no_err = keep
next_of object_not_found = last
next_of access_denied = leave eacces
next_of dir_not_found = stop
next_of bitmap_err = leave eio
next_of misc_err = leave eio
next_of object_type_err = leave eio
next_of param_err = leave eio
next_of call_not_supported = leave eio
next_of _ = ask_again

-- `*file_p`, which is null after a request that failed.
abbrev pub batch : Reply → List FileInfo
batch r = if is_no_err r.code then r.entries else []

-- The loop, with the list so far. `none` is a loop that goes on when the fuel is used up.
unfoldable pub read_batches :
    World
    → (fuel : ℕ) (resource : Bool) (dirid startindex : ℕ) → Bytes
    → List FileInfo
    → M (Option (Ret × List FileInfo))
unfolding list_call next_of
read_batches w zero resource dirid startindex name files v = (none, v)
read_batches w (suc fuel) resource dirid startindex name files v =
    let r = request w (list_call v resource dirid startindex name) v in
    let more = batch r.0 in
    elim (next_of r.0.code) [
      | keep ↦
          read_batches w fuel resource dirid (startindex + length more) name (files ++ more) r.1
      | last ↦ (some (val 0, files ++ more), r.1)
      | ask_again ↦ read_batches w fuel resource dirid startindex name files r.1
      | stop ↦ (some (val 0, files), r.1)
      | leave e ↦ (some (fail e, []), r.1)
    ]

-- "Convert all the names back to precomposed", and the modes where the server has none. With an
-- encoding that is not supported the cleared buffer is the name.
unfoldable pub finish : World → Volume → FileInfo → FileInfo
unfolding convert_path_to_unix set_nonunix_perms
finish w v fp =
    let name : Bytes = elim (convert_path_to_unix w.unicode v.path_encoding fp.name) [
      | some s ↦ s
      | none ↦ []
    ] in
    let named = record fp { name = name } in
    if ltb v.av_number 30 then record named { permissions = set_nonunix_perms fp } else named

unfoldable pub ll_readdir :
    World → (fuel : ℕ) → Bytes → (resource : Bool) → M (Option (Ret × List FileInfo))
unfolding get_dirid read_batches finish
ll_readdir w fuel path resource v =
    let at = get_dirid w path v in
    let found : Option (Ret × List FileInfo) × Volume = elim at.0 [
      | none ↦ (some (fail enoent, []), at.1)
      | some (dirid, basename) ↦
          let out = read_batches w fuel resource dirid 1 basename [] at.1 in
          (
            elim out.0 [ none ↦ none | some (ret, files) ↦ some (ret, map (finish w out.1) files) ],
            out.1,
          )
    ] in
    if invalid_filename v.av_number v.path_encoding path
    then (some (fail enametoolong, []), v)
    else found
