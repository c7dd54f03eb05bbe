-- ===== src/MidLevel/Rename.antt =====
-- `afp_ml_rename` of lib/midlevel.c. A destination path that is null is sent as the empty one.
use afpfs_ng.Common.{
  ℕ, [], Bytes, Bool, true, false, if◌then◌else◌, Ret, val, fail, eacces, eio, enoent, erofs,
}
use afpfs_ng.Did.Lookup.{is_dir}
use afpfs_ng.MidLevel.Guards.{with_converted, unless_readonly, place}
use afpfs_ng.Proto.Calls.{delete, move_and_rename}
use afpfs_ng.Proto.Codes.{
  Code, no_err, access_denied, object_locked, cant_rename, object_exists, object_not_found,
}
use afpfs_ng.Volume.{World, M, request}

-- The second attempt decides: kFPParamErr and kFPMiscErr fall through to 0.
unfoldable pub again_result : Code → Ret
again_result object_locked = fail eacces
again_result access_denied = fail eacces
again_result cant_rename = fail erofs
again_result object_exists = fail enoent
again_result object_not_found = fail enoent
again_result _ = val 0

-- "First, remove the old file", whose result is replaced; "then, do the move again".
unfoldable pub replace : World → (from to : ℕ × Bytes) → M Ret
unfolding again_result
replace w from to v =
    let removed = request w (delete v.volid to.0 to.1) v in
    let moved = request w (move_and_rename v.volid from.0 to.0 from.1 [] to.1) removed.1 in
    (again_result moved.0.code, moved.1)

-- kFPObjectNotFound sets ENOENT and falls through to 0.
unfoldable pub rename_result : Code → Ret
rename_result object_locked = fail eacces
rename_result access_denied = fail eacces
rename_result cant_rename = fail erofs
rename_result object_not_found = val 0
rename_result no_err = val 0
rename_result _ = fail eio

unfoldable pub exists : Code → Bool
exists object_exists = true
exists _ = false

unfoldable pub move : World → (path_from path_to : Bytes) → M Ret
unfolding place is_dir replace rename_result exists
move w path_from path_to v =
    let from = place w path_from v in
    let to = place w path_to from.1 in
    let dir = is_dir w to.0.0 path_to to.1 in
    let call =
      if dir.0
      then move_and_rename v.volid from.0.0 to.0.0 from.0.1 to.0.1 from.0.1
      else move_and_rename v.volid from.0.0 to.0.0 from.0.1 [] to.0.1 in
    let r = request w call dir.1 in
    let replaced = replace w from.0 to.0 r.1 in
    if exists r.0.code then replaced else (rename_result r.0.code, r.1)

unfoldable pub afp_ml_rename : World → (path_from path_to : Bytes) → M Ret
unfolding move
afp_ml_rename w path_from path_to = with_converted path_from λ converted_from.
    with_converted path_to λ converted_to. unless_readonly (move w converted_from converted_to)
