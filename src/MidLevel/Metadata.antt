-- ===== src/MidLevel/Metadata.antt =====
-- The names below `.AppleDouble` in lib/midlevel.c.
use afpfs_ng.Common.{ℕ, Bytes, true, ◌≡◌, Ret}
use afpfs_ng.MidLevel.Change.{if_unix, change_owner, set_time, afp_ml_chown, afp_ml_utime}
use afpfs_ng.MidLevel.Create.{make_dir, afp_ml_mkdir}
use afpfs_ng.MidLevel.Guards.{with_converted, unless_invalid, unless_readonly, unless_meta}
use afpfs_ng.MidLevel.Refused.{
  some_ret, Refused, invalid-Refused, converted-Refused, writable-Refused, meta-Refused,
}
use afpfs_ng.MidLevel.Remove.{remove_file, remove_dir, afp_ml_unlink, afp_ml_rmdir}
use afpfs_ng.Resource.Names.{below, appledouble_refuse-below}
use afpfs_ng.Volume.{Volume, World, M}

module _ (v : Volume) (shown : v.extra_flags.show_appledouble ≡ true) (w : World)
    (dir name : Bytes) where
  meta_below-Refused : (rest : M Ret) → Refused (some_ret (unless_meta (below dir name) rest v)) v
  meta_below-Refused rest =
      meta-Refused v (below dir name) rest (appledouble_refuse-below v dir name shown)

  mkdir-Refused : Refused (some_ret (afp_ml_mkdir w (below dir name) v)) v
  unfolding afp_ml_mkdir
  mkdir-Refused =
      let path = below dir name in
      let rest : Bytes → M Ret = λ p. unless_meta path (make_dir w p) in
      converted-Refused v path (λ p. unless_invalid path (unless_readonly (rest p)))
        (λ p.
          invalid-Refused v path (unless_readonly (rest p))
            (writable-Refused v (rest p) (meta_below-Refused (make_dir w p))))

  unlink-Refused : Refused (some_ret (afp_ml_unlink w (below dir name) v)) v
  unfolding afp_ml_unlink
  unlink-Refused =
      let path = below dir name in
      let rest : Bytes → M Ret = λ p. unless_meta path (remove_file w p) in
      converted-Refused v path (λ p. unless_readonly (rest p))
        (λ p. writable-Refused v (rest p) (meta_below-Refused (remove_file w p)))

  rmdir-Refused : Refused (some_ret (afp_ml_rmdir w (below dir name) v)) v
  unfolding afp_ml_rmdir
  rmdir-Refused =
      let path = below dir name in
      let rest : Bytes → M Ret = λ p. unless_meta path (remove_dir w p) in
      invalid-Refused v path (with_converted path λ p. unless_readonly (rest p)) (
        converted-Refused v path (λ p. unless_readonly (rest p))
          (λ p. writable-Refused v (rest p) (meta_below-Refused (remove_dir w p))))

  chown-Refused : (uid gid : ℕ) → Refused (some_ret (afp_ml_chown w (below dir name) uid gid v)) v
  unfolding afp_ml_chown
  chown-Refused uid gid =
      let path = below dir name in
      let own : Bytes → M Ret = λ p. if_unix w path (change_owner w p) in
      let rest : Bytes → M Ret = λ p. unless_meta path (own p) in
      converted-Refused v path (λ p. unless_invalid p (unless_readonly (rest p)))
        (λ p.
          invalid-Refused v p (unless_readonly (rest p))
            (writable-Refused v (rest p) (meta_below-Refused (own p))))

  utime-Refused : (modtime : ℕ) → Refused (some_ret (afp_ml_utime w (below dir name) modtime v)) v
  unfolding afp_ml_utime
  utime-Refused modtime =
      let path = below dir name in
      let rest : Bytes → M Ret = λ p. unless_meta path (set_time w p modtime) in
      let tested : M Ret = unless_invalid path (with_converted path rest) in
      writable-Refused v tested (
        invalid-Refused v path (with_converted path rest)
          (converted-Refused v path rest (λ p. meta_below-Refused (set_time w p modtime))))

  -- A path that is below a directory `.AppleDouble`, or has this as the start of its last name, is
  -- refused with an errno by making and removing directories, removing files, and changing owners
  -- and times, before any request is sent and with the volume as it was, where the volume shows
  -- these names.
  pub below-Refused :
      (uid gid modtime : ℕ)
      → Refused (some_ret (afp_ml_mkdir w (below dir name) v)) v
        × Refused (some_ret (afp_ml_unlink w (below dir name) v)) v
        × Refused (some_ret (afp_ml_rmdir w (below dir name) v)) v
        × Refused (some_ret (afp_ml_chown w (below dir name) uid gid v)) v
        × Refused (some_ret (afp_ml_utime w (below dir name) modtime v)) v
  below-Refused uid gid modtime =
      (mkdir-Refused, unlink-Refused, rmdir-Refused, chown-Refused uid gid, utime-Refused modtime)
