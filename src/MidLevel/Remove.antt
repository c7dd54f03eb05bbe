-- ===== src/MidLevel/Remove.antt =====
-- `afp_ml_unlink` and `afp_ml_rmdir` of lib/midlevel.c.
use afpfs_ng.Common.{
  ℕ, Bytes, if◌then◌else◌, Ret, val, fail, eacces, ebusy, einval, eisdir, enoent, enotdir,
  enotempty,
}
use afpfs_ng.Did.Cache.{remove_did_entry}
use afpfs_ng.Did.Lookup.{is_dir}
use afpfs_ng.MidLevel.Guards.{with_converted, unless_invalid, unless_readonly, unless_meta, place}
use afpfs_ng.Proto.Calls.{delete}
use afpfs_ng.Proto.Codes.{
  Code, access_denied, object_locked, object_not_found, vol_locked, object_type_err, dir_not_empty,
  misc_err, param_err, not_sent,
}
use afpfs_ng.Volume.{World, M, request}

-- Every result that is not listed is a success.
unfoldable pub unlink_result : Code → Ret
unlink_result access_denied = fail eacces
unlink_result object_locked = fail ebusy
unlink_result object_not_found = fail enoent
unlink_result vol_locked = fail eacces
unlink_result object_type_err = fail einval
unlink_result dir_not_empty = fail einval
unlink_result misc_err = fail einval
unlink_result param_err = fail einval
unlink_result not_sent = fail einval
unlink_result _ = val 0

unfoldable pub delete_file : World → (dirid : ℕ) → Bytes → M Ret
unfolding unlink_result
delete_file w dirid basename v =
    let r = request w (delete v.volid dirid basename) v in (unlink_result r.0.code, r.1)

unfoldable pub remove_file : World → (converted_path : Bytes) → M Ret
unfolding delete_file place is_dir
remove_file w converted_path v =
    let at = place w converted_path v in
    let dir = is_dir w at.0.0 at.0.1 at.1 in
    let rest = unless_invalid converted_path (delete_file w at.0.0 at.0.1) dir.1 in
    if dir.0 then (fail eisdir, dir.1) else rest

unfoldable pub afp_ml_unlink : World → Bytes → M Ret
unfolding remove_file
afp_ml_unlink w path =
    with_converted path
      λ converted_path. unless_readonly (unless_meta path (remove_file w converted_path))

unfoldable pub rmdir_result : Code → Ret
rmdir_result access_denied = fail eacces
rmdir_result object_locked = fail ebusy
rmdir_result object_not_found = fail enoent
rmdir_result vol_locked = fail eacces
rmdir_result dir_not_empty = fail enotempty
rmdir_result object_type_err = fail einval
rmdir_result misc_err = fail einval
rmdir_result param_err = fail einval
rmdir_result not_sent = fail einval
rmdir_result _ = val 0

-- The entry of the cache goes with the directory.
unfoldable pub delete_dir : World → (converted_path : Bytes) (dirid : ℕ) → Bytes → M Ret
unfolding rmdir_result remove_did_entry
delete_dir w converted_path dirid basename v =
    let r = request w (delete v.volid dirid basename) v in
    elim (rmdir_result r.0.code) [
      | fail e ↦ (fail e, r.1)
      | val n ↦ (val 0, (remove_did_entry converted_path r.1).1)
    ]

unfoldable pub remove_dir : World → (converted_path : Bytes) → M Ret
unfolding delete_dir place is_dir
remove_dir w converted_path v =
    let at = place w converted_path v in
    let dir = is_dir w at.0.0 at.0.1 at.1 in
    let rest = delete_dir w converted_path at.0.0 at.0.1 dir.1 in
    if dir.0 then rest else (fail enotdir, dir.1)

unfoldable pub afp_ml_rmdir : World → Bytes → M Ret
unfolding remove_dir
afp_ml_rmdir w path = unless_invalid path (
    with_converted path
      λ converted_path. unless_readonly (unless_meta path (remove_dir w converted_path)))
