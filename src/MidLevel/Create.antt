-- ===== src/MidLevel/Create.antt =====
-- `afp_ml_creat` and `afp_ml_mkdir` of lib/midlevel.c.
use afpfs_ng.Common.{
  ℕ, Bytes, false, ◌==◌, if◌then◌else◌, Ret, val, fail, eacces, ebusy, eexist, efault, eio, enoent,
  enospc,
}
use afpfs_ng.LowLevel.Entry.{get_unixprivs}
use afpfs_ng.MidLevel.Guards.{
  with_converted, unless_invalid, unless_readonly, unless_absorbed, unless_meta, place,
}
use afpfs_ng.MidLevel.Privs.{set_unixprivs}
use afpfs_ng.Proto.Calls.{create_file, create_dir}
use afpfs_ng.Proto.Codes.{
  Code, no_err, access_denied, disk_full, object_exists, object_not_found, file_busy, vol_locked,
  flat_vol, misc_err, param_err, not_sent,
}
use afpfs_ng.Resource.Refuse.{appledouble_creat}
use afpfs_ng.Volume.{Volume, World, M, request}

unfoldable pub creat_result : Code → Ret
creat_result access_denied = fail eacces
creat_result disk_full = fail enospc
creat_result object_exists = fail eexist
creat_result object_not_found = fail enoent
creat_result file_busy = fail ebusy
creat_result vol_locked = fail ebusy
creat_result no_err = val 0
creat_result _ = fail eio

-- The privileges of the file that was created. Where they cannot be read the source returns `rc`,
-- the 0 of the request before. `set_unixprivs` gives 0 or a negated errno, so that the switch over
-- result codes makes EIO of every failure.
unfoldable pub creat_privs : World → (dirid : ℕ) → Bytes → (mode : ℕ) → M Ret
unfolding get_unixprivs set_unixprivs
creat_privs w dirid basename mode v =
    let found = get_unixprivs w dirid basename w.junk v in
    let fp = record found.0.1 { ua_permissions = 0; permissions = mode; isdir = false } in
    let set = set_unixprivs w dirid basename fp found.1 in
    let changed : Ret × Volume = (elim set.0 [ val n ↦ val 0 | fail e ↦ fail eio ], set.1) in
    elim found.0.0 [
      | fail e ↦ (val 0, found.1)
      | val n ↦ if found.0.1.permissions == mode then (val 0, found.1) else changed
    ]

-- The request, and what follows it.
unfoldable pub creat_file : World → Bytes → (mode : ℕ) → M Ret
unfolding place creat_result creat_privs
creat_file w converted_path mode v =
    let at = place w converted_path v in
    let r = request w (create_file at.1.volid 0 at.0.0 at.0.1) at.1 in
    let privs = creat_privs w at.0.0 at.0.1 mode r.1 in
    elim (creat_result r.0.code) [
      | fail e ↦ (fail e, r.1)
      | val n ↦ if r.1.extra_flags.vol_supports_unix then privs else (val 0, r.1)
    ]

unfoldable pub afp_ml_creat : World → Bytes → (mode : ℕ) → M Ret
unfolding creat_file appledouble_creat
afp_ml_creat w path mode = with_converted path λ converted_path. unless_readonly λ v.
    unless_absorbed (appledouble_creat v path)
      (unless_invalid converted_path (creat_file w converted_path mode)) v

unfoldable pub mkdir_result : Code → Ret
mkdir_result access_denied = fail eacces
mkdir_result disk_full = fail enospc
mkdir_result object_not_found = fail enoent
mkdir_result object_exists = fail eexist
mkdir_result vol_locked = fail ebusy
mkdir_result flat_vol = fail efault
mkdir_result misc_err = fail efault
mkdir_result param_err = fail efault
mkdir_result not_sent = fail efault
mkdir_result _ = val 0

unfoldable pub make_dir : World → Bytes → M Ret
unfolding place mkdir_result
make_dir w converted_path v =
    let at = place w converted_path v in
    let r = request w (create_dir at.1.volid at.0.0 at.0.1) at.1 in (mkdir_result r.0.code, r.1)

-- The name is tested before it is converted.
unfoldable pub afp_ml_mkdir : World → Bytes → M Ret
unfolding make_dir
afp_ml_mkdir w path = with_converted path λ converted_path.
    unless_invalid path (unless_readonly (unless_meta path (make_dir w converted_path)))
