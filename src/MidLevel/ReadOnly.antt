-- ===== src/MidLevel/ReadOnly.antt =====
-- A read-only volume: every operation of lib/midlevel.c that would change it.
use afpfs_ng.Codepage.{convert_path_to_afp}
use afpfs_ng.Common.{
  ℕ, Bytes, true, ◌≡◌, refl, Option, none, some, Option-cases, Bool-cases, inl, inr, Ret, eacces,
  einval, enametoolong, efbig, enosys, ltb, length, ◌&&◌,
}
use afpfs_ng.LowLevel.Opening.{OpenFlags}
use afpfs_ng.MidLevel.Change.{
  if_unix, change_mode, change_owner, set_time, afp_ml_chmod, afp_ml_chown, afp_ml_utime,
}
use afpfs_ng.MidLevel.Create.{creat_file, make_dir, afp_ml_creat, afp_ml_mkdir}
use afpfs_ng.MidLevel.Guards.{
  with_converted, unless_invalid, unless_readonly, unless_absorbed, unless_meta,
}
use afpfs_ng.MidLevel.Content.{afp_ml_write}
use afpfs_ng.MidLevel.Links.{make_link, afp_ml_symlink}
use afpfs_ng.MidLevel.Opened.{changes, afp_ml_open, afp_ml_truncate}
use afpfs_ng.MidLevel.Remove.{remove_file, remove_dir, afp_ml_unlink, afp_ml_rmdir}
use afpfs_ng.MidLevel.Rename.{move, afp_ml_rename}
use afpfs_ng.Resource.Content.{Result, returned}
use afpfs_ng.Resource.Refuse.{appledouble_creat}
use afpfs_ng.Names.{invalid_filename}
use afpfs_ng.MidLevel.Refused.{some_ret, Refused, invalid-Refused, converted-Refused}
use afpfs_ng.Volume.{Volume, World, FileInfo, M, volume_is_readonly}

-- The operations with their arguments.
pub data Operation : Type 0 where
  creat : Bytes → (mode : ℕ) → Operation
  mkdir : Bytes → Operation
  unlink : Bytes → Operation
  rmdir : Bytes → Operation
  chmod : Bytes → (mode : ℕ) → Operation
  chown : Bytes → (uid gid : ℕ) → Operation
  utime : Bytes → (modtime : ℕ) → Operation
  rename : (from to : Bytes) → Operation
  truncate : Bytes → (offset ptr : ℕ) → Operation
  open_file : Bytes → OpenFlags → (ptr : ℕ) → Operation
  write : Bytes → (contents : Bytes) → (offset : ℕ) → FileInfo → (uid gid : ℕ) → Operation
  symlink : (target path : Bytes) → Operation

-- The result, which is no other negative number.
abbrev pub result_ret : Result → Option Ret
result_ret (returned r) = some r
result_ret _ = none

-- With the fuel that the loop of `ll_open` gets.
unfoldable pub run : World → (fuel : ℕ) → Operation → M (Option Ret)
run w fuel (creat path mode) v = some_ret (afp_ml_creat w path mode v)
run w fuel (mkdir path) v = some_ret (afp_ml_mkdir w path v)
run w fuel (unlink path) v = some_ret (afp_ml_unlink w path v)
run w fuel (rmdir path) v = some_ret (afp_ml_rmdir w path v)
run w fuel (chmod path mode) v = some_ret (afp_ml_chmod w path mode v)
run w fuel (chown path uid gid) v = some_ret (afp_ml_chown w path uid gid v)
run w fuel (utime path modtime) v = some_ret (afp_ml_utime w path modtime v)
run w fuel (rename from to) v = some_ret (afp_ml_rename w from to v)
run w fuel (truncate path offset ptr) v = afp_ml_truncate w fuel path offset ptr v
run w fuel (open_file path flags ptr) v =
    let o = afp_ml_open w fuel path flags ptr v in (o.0.0, o.1)
run w fuel (write path contents offset fp uid gid) v =
    let o = afp_ml_write w path contents offset fp uid gid v in (result_ret o.0.ret, o.1)
run w fuel (symlink target path) v = some_ret (afp_ml_symlink w target path v)

-- All of them change the volume, an opening if its flags say so.
abbrev pub IsChange : Operation → Type 0
IsChange (open_file path flags ptr) = changes flags ≡ true
IsChange _ = Unit {0}

module _ (v : Volume) (ro : volume_is_readonly v ≡ true) where
  readonly-Refused : (rest : M Ret) → Refused (some_ret (unless_readonly rest v)) v
  readonly-Refused rest = rw ro (refl, eacces, refl)

  truncate-Refused :
      (w : World) (fuel : ℕ) (path : Bytes) (offset ptr : ℕ)
      → Refused (afp_ml_truncate w fuel path offset ptr v) v
  unfolding afp_ml_truncate
  truncate-Refused w fuel path offset ptr =
      elim (Option-cases (convert_path_to_afp v.path_encoding path)) [
        | inl e ↦ rw (e, afp_ml_truncate) (refl, einval, refl)
        | inr (p, e) ↦ elim (Bool-cases (invalid_filename v.av_number v.path_encoding p)) [
          | inl i ↦ rw (e, afp_ml_truncate) (rw i (refl, enametoolong, refl))
          | inr i ↦ rw (e, afp_ml_truncate) (rw (i, ro) (refl, eacces, refl))
        ]
      ]

  open-Refused :
      (w : World) (fuel : ℕ) (path : Bytes) (flags : OpenFlags) (ptr : ℕ)
      → changes flags ≡ true
      → let o = afp_ml_open w fuel path flags ptr v in Refused (o.0.0, o.1) v
  unfolding afp_ml_open
  open-Refused w fuel path flags ptr c =
      elim (Option-cases (convert_path_to_afp v.path_encoding path)) [
        | inl e ↦ rw (e, afp_ml_open) (refl, einval, refl)
        | inr (p, e) ↦ elim (Bool-cases (invalid_filename v.av_number v.path_encoding p)) [
          | inl i ↦ rw (e, afp_ml_open) (rw i (refl, enametoolong, refl))
          | inr i ↦ rw (e, afp_ml_open) (rw (i, ro, c) (refl, eacces, refl))
        ]
      ]

  write-Refused :
      (w : World) (path contents : Bytes) (offset : ℕ) (fp : FileInfo) (uid gid : ℕ)
      → let o = afp_ml_write w path contents offset fp uid gid v in
        Refused (result_ret o.0.ret, o.1) v
  unfolding afp_ml_write
  write-Refused w path contents offset fp uid gid =
      elim (Bool-cases (ltb v.av_number 30 && ltb 4294967296 (length contents))) [
        | inl big ↦ rw (big, afp_ml_write) (refl, efbig, refl)
        | inr small ↦ elim (Option-cases (convert_path_to_afp v.path_encoding path)) [
          | inl e ↦ rw (small, e, afp_ml_write) (refl, einval, refl)
          | inr (p, e) ↦ rw (small, e, afp_ml_write) (rw ro (refl, eacces, refl))
        ]
      ]

  symlink-Refused :
      (w : World) (target path : Bytes) → Refused (some_ret (afp_ml_symlink w target path v)) v
  unfolding afp_ml_symlink
  symlink-Refused w target path =
      let rest : Bytes → Bytes → M Ret = λ t p. unless_meta target (make_link w t p) in
      let links =
        converted-Refused v target (λ t. with_converted path λ p. unless_readonly (rest t p))
          (λ t.
            converted-Refused v path (λ p. unless_readonly (rest t p))
              (λ p. readonly-Refused (rest t p))) in
      elim (Bool-cases (ltb v.av_number 30)) [
        | inl old ↦ rw old (refl, enosys, refl)
        | inr recent ↦ rw recent links
      ]

  -- On a read-only volume every one of these operations fails, with an errno, before any request is
  -- sent, and leaves the volume as it is: creating, opening for a change, writing, truncating,
  -- removing and renaming files, making links, making and removing directories, and changing modes,
  -- owners and times.
  pub run-Refused :
      (w : World) (fuel : ℕ) (op : Operation) → IsChange op → Refused (run w fuel op v) v
  unfolding run afp_ml_creat afp_ml_mkdir afp_ml_unlink afp_ml_rmdir afp_ml_chmod afp_ml_chown
      afp_ml_utime afp_ml_rename
  run-Refused w fuel (creat path mode) c =
      let rest : Bytes → M Ret = λ p u.
        unless_absorbed (appledouble_creat u path) (unless_invalid p (creat_file w p mode)) u in
      converted-Refused v path (λ p. unless_readonly (rest p)) (λ p. readonly-Refused (rest p))
  run-Refused w fuel (mkdir path) c =
      let rest : Bytes → M Ret = λ p. unless_meta path (make_dir w p) in
      converted-Refused v path (λ p. unless_invalid path (unless_readonly (rest p)))
        (λ p. invalid-Refused v path (unless_readonly (rest p)) (readonly-Refused (rest p)))
  run-Refused w fuel (unlink path) c =
      let rest : Bytes → M Ret = λ p. unless_meta path (remove_file w p) in
      converted-Refused v path (λ p. unless_readonly (rest p)) (λ p. readonly-Refused (rest p))
  run-Refused w fuel (rmdir path) c =
      let rest : Bytes → M Ret = λ p. unless_meta path (remove_dir w p) in
      invalid-Refused v path (with_converted path λ p. unless_readonly (rest p))
        (converted-Refused v path (λ p. unless_readonly (rest p)) (λ p. readonly-Refused (rest p)))
  run-Refused w fuel (chmod path mode) c =
      let rest : M Ret =
        if_unix w path (with_converted path λ p. unless_meta path (change_mode w p mode)) in
      invalid-Refused v path (unless_readonly rest) (readonly-Refused rest)
  run-Refused w fuel (chown path uid gid) c =
      let rest : Bytes → M Ret = λ p. unless_meta path (if_unix w path (change_owner w p)) in
      converted-Refused v path (λ p. unless_invalid p (unless_readonly (rest p)))
        (λ p. invalid-Refused v p (unless_readonly (rest p)) (readonly-Refused (rest p)))
  run-Refused w fuel (utime path modtime) c =
      readonly-Refused
        (unless_invalid path (with_converted path λ p. unless_meta path (set_time w p modtime)))
  run-Refused w fuel (rename from to) c =
      let rest : Bytes → Bytes → M Ret = λ p q. unless_readonly (move w p q) in
      converted-Refused v from (λ p. with_converted to (rest p))
        (λ p. converted-Refused v to (rest p) (λ q. readonly-Refused (move w p q)))
  run-Refused w fuel (truncate path offset ptr) c = truncate-Refused w fuel path offset ptr
  run-Refused w fuel (open_file path flags ptr) c = open-Refused w fuel path flags ptr c
  run-Refused w fuel (write path contents offset fp uid gid) c =
      write-Refused w path contents offset fp uid gid
  run-Refused w fuel (symlink target path) c = symlink-Refused w target path
