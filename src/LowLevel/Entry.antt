-- ===== src/LowLevel/Entry.antt =====
-- `ll_zero_file` and `ll_get_directory_entry` of lib/lowlevel.c, and `get_unixprivs` of
-- lib/midlevel.c.
use afpfs_ng.Common.{
  ℕ, Bytes, Bool, ◌||◌, ltb, if◌then◌else◌, Option, none, some, Ret, val, fail, Errno, eacces,
  ebusy, enospc, eio, enoent,
}
use afpfs_ng.Did.Lookup.{filled}
use afpfs_ng.Proto.Calls.{set_fork_parms, get_file_dir_parms}
use afpfs_ng.Proto.Codes.{
  Code, no_err, access_denied, vol_locked, lock_err, disk_full, bitmap_err, misc_err, param_err,
  object_not_found, data_fork_len_bit, rsrc_fork_len_bit, ext_data_fork_len_bit,
  ext_rsrc_fork_len_bit, unix_privs_bit,
}
use afpfs_ng.Volume.{Volume, World, FileInfo, M, request}

abbrev zero_bitmap : Volume → (resource : Bool) → ℕ
zero_bitmap v resource =
    let short = if resource then rsrc_fork_len_bit else data_fork_len_bit in
    let long = if resource then ext_rsrc_fork_len_bit else ext_data_fork_len_bit in
    if ltb v.av_number 30 || v.is_netatalk then short else long

-- 0, or the errno, which the source returns positive.
unfoldable pub zero_error : Code → Option Errno
zero_error access_denied = some eacces
zero_error vol_locked = some ebusy
zero_error lock_err = some ebusy
zero_error disk_full = some enospc
zero_error bitmap_err = some eio
zero_error misc_err = some eio
zero_error param_err = some eio
zero_error _ = none

unfoldable pub ll_zero_file : World → (forkid : ℕ) (resource : Bool) → M (Option Errno)
unfolding zero_error
ll_zero_file w forkid resource v =
    let r = request w (set_fork_parms forkid (zero_bitmap v resource) 0) v in
    (zero_error r.0.code, r.1)

-- The struct is filled, but keeps its `basename`.
unfoldable pub ll_get_directory_entry :
    World → Bytes → (dirid filebitmap dirbitmap : ℕ) → FileInfo → M (Code × FileInfo)
ll_get_directory_entry w basename dirid filebitmap dirbitmap p v =
    let r = request w (get_file_dir_parms v.volid dirid filebitmap dirbitmap basename) v in
    ((r.0.code, record (filled r.0 p) { basename = p.basename }), r.1)

unfoldable pub unixprivs_result : Code → Ret
unixprivs_result access_denied = fail eacces
unixprivs_result object_not_found = fail enoent
unixprivs_result no_err = val 0
unixprivs_result _ = fail eio

unfoldable pub get_unixprivs : World → (dirid : ℕ) → Bytes → FileInfo → M (Ret × FileInfo)
unfolding ll_get_directory_entry unixprivs_result
get_unixprivs w dirid path fp v =
    let r = ll_get_directory_entry w path dirid unix_privs_bit unix_privs_bit fp v in
    ((unixprivs_result r.0.0, r.0.1), r.1)
