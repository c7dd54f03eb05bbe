-- ===== src/MidLevel/Change.antt =====
-- `afp_ml_chmod`, `afp_ml_chown` and `afp_ml_utime` of lib/midlevel.c.
use afpfs_ng.Common.{
  ℕ, ◌-◌, Bytes, false, not, ◌&&◌, bit_and, ◌==◌, none, some, if◌then◌else◌, Ret, val, fail, eperm,
  enoent, eacces, enosys, eio,
}
use afpfs_ng.LowLevel.Attr.{ll_getattr, s_ifdir}
use afpfs_ng.LowLevel.Entry.{get_unixprivs}
use afpfs_ng.Did.Lookup.{is_dir}
use afpfs_ng.MidLevel.Guards.{with_converted, unless_invalid, unless_readonly, unless_meta, place}
use afpfs_ng.MidLevel.Privs.{parms_of, set_unixprivs}
use afpfs_ng.Proto.Calls.{set_dir_parms, set_file_parms}
use afpfs_ng.Proto.Codes.{Code, access_denied, object_not_found, mod_date_bit}
use afpfs_ng.Replies.Block.{cleared}
use afpfs_ng.Volume.{Volume, World, M, request}
use afpfs_ng.Volume.Users.{translate_uidgid_to_client}

-- "There's no way to do this in AFP < 3.0": a volume without Unix privileges answers by whether the
-- file exists, or not at all.
unfoldable pub if_unix : World → Bytes → M Ret → M Ret
unfolding ll_getattr
if_unix w path rest v =
    let seen = ll_getattr w path false v in
    if v.extra_flags.vol_supports_unix
    then rest v
    else if v.extra_flags.ignore_unixprivs
    then (seen.0.0, seen.1)
    else (fail enosys, v)

-- `x&(~S_IFDIR)` on 32 bits.
unfoldable pub without_dir : ℕ → ℕ
without_dir mode = bit_and mode (4294967295 - s_ifdir)

-- The result: `-ENOSYS` is passed on, and every other failure is a success.
unfoldable pub enosys_only : Ret → Ret
enosys_only (fail enosys) = fail enosys
enosys_only _ = val 0

unfoldable pub change_mode : World → Bytes → (mode : ℕ) → M Ret
unfolding place get_unixprivs set_unixprivs translate_uidgid_to_client without_dir enosys_only
change_mode w converted_path mode v =
    let at = place w converted_path v in
    let found = get_unixprivs w at.0.0 at.0.1 w.junk at.1 in
    let fp = found.0.1 in
    let set =
      set_unixprivs w at.0.0 at.0.1 (record fp { permissions = without_dir mode }) found.1 in
    let allowed : Ret × Volume = elim (translate_uidgid_to_client found.1 fp.uid fp.gid) [
      | none ↦ (fail eio, found.1)
      | some (uid, gid) ↦
          if not (gid == w.getgid) && not (uid == w.geteuid)
          then (fail eperm, found.1)
          else (enosys_only set.0, set.1)
    ] in
    elim found.0.0 [
      | fail e ↦ (fail e, found.1)
      | val n ↦ if without_dir fp.permissions == without_dir mode then (val 0, found.1) else allowed
    ]

unfoldable pub afp_ml_chmod : World → Bytes → (mode : ℕ) → M Ret
unfolding if_unix change_mode
afp_ml_chmod w path mode = unless_invalid path (
    unless_readonly (
      if_unix w path (
        with_converted path
          λ converted_path. unless_meta path (change_mode w converted_path mode))))

-- The privileges are read and set again: the new owner is not put into them.
unfoldable pub change_owner : World → Bytes → M Ret
unfolding place get_unixprivs set_unixprivs enosys_only
change_owner w converted_path v =
    let at = place w converted_path v in
    let found = get_unixprivs w at.0.0 at.0.1 w.junk at.1 in
    let set = set_unixprivs w at.0.0 at.0.1 found.0.1 found.1 in
    elim found.0.0 [ fail e ↦ (fail e, found.1) | val n ↦ (enosys_only set.0, set.1) ]

unfoldable pub afp_ml_chown : World → Bytes → (uid gid : ℕ) → M Ret
unfolding if_unix change_owner
afp_ml_chown w path uid gid = with_converted path λ converted_path.
    unless_invalid converted_path
      (unless_readonly (unless_meta path (if_unix w path (change_owner w converted_path))))

unfoldable pub utime_result : Code → Ret
utime_result access_denied = fail eacces
utime_result object_not_found = fail enoent
utime_result _ = val 0

unfoldable pub set_time : World → Bytes → (modtime : ℕ) → M Ret
unfolding place is_dir utime_result cleared
set_time w converted_path modtime v =
    let at = place w converted_path v in
    let dir = is_dir w at.0.0 at.0.1 at.1 in
    let parms = parms_of (record (cleared 0) { modification_date = modtime }) in
    let call =
      if dir.0
      then set_dir_parms v.volid at.0.0 mod_date_bit at.0.1 parms
      else set_file_parms v.volid at.0.0 mod_date_bit at.0.1 parms in
    let r = request w call dir.1 in (utime_result r.0.code, r.1)

unfoldable pub afp_ml_utime : World → Bytes → (modtime : ℕ) → M Ret
unfolding set_time
afp_ml_utime w path modtime = unless_readonly (
    unless_invalid path
      (with_converted path λ converted_path. unless_meta path (set_time w converted_path modtime)))
