-- ===== src/MidLevel/Refused.antt =====
-- Operations that are refused before anything is sent.
use afpfs_ng.Codepage.{convert_path_to_afp}
use afpfs_ng.Common.{
  Bytes, ◌≡◌, refl, Option, some, Option-cases, Bool-cases, inl, inr, Ret, fail, Errno, eperm,
  eacces, einval, enametoolong,
}
use afpfs_ng.MidLevel.Guards.{with_converted, unless_invalid, unless_readonly, unless_meta}
use afpfs_ng.Names.{invalid_filename}
use afpfs_ng.Resource.Refuse.{refused, appledouble_refuse}
use afpfs_ng.Volume.{Volume, M, volume_is_readonly}

abbrev pub some_ret : Ret × Volume → Option Ret × Volume
some_ret r = (some r.0, r.1)

-- An operation that fails at once: nothing is sent, and the volume is as it was.
abbrev pub Refused : Option Ret × Volume → Volume → Type 0
Refused r v = (r.1 ≡ v) × (e : Errno) × (r.0 ≡ some (fail e))

module _ (v : Volume) where
  pub invalid-Refused :
      (name : Bytes) (rest : M Ret)
      → Refused (some_ret (rest v)) v
      → Refused (some_ret (unless_invalid name rest v)) v
  invalid-Refused name rest h =
      elim (Bool-cases (invalid_filename v.av_number v.path_encoding name)) [
        | inl e ↦ rw e (refl, enametoolong, refl)
        | inr e ↦ rw e h
      ]

  pub converted-Refused :
      (path : Bytes) (rest : Bytes → M Ret)
      → ((p : Bytes) → Refused (some_ret (rest p v)) v)
      → Refused (some_ret (with_converted path rest v)) v
  converted-Refused path rest h = elim (Option-cases (convert_path_to_afp v.path_encoding path)) [
    | inl e ↦ rw (e, with_converted) (refl, einval, refl)
    | inr (p, e) ↦ rw (e, with_converted) (h p)
  ]

  pub writable-Refused :
      (rest : M Ret) → Refused (some_ret (rest v)) v → Refused (some_ret (unless_readonly rest v)) v
  writable-Refused rest h = elim (Bool-cases (volume_is_readonly v)) [
    | inl e ↦ rw e (refl, eacces, refl)
    | inr e ↦ rw e h
  ]

  pub meta-Refused :
      (path : Bytes) (rest : M Ret)
      → appledouble_refuse v path ≡ refused eperm
      → Refused (some_ret (unless_meta path rest v)) v
  meta-Refused path rest e = rw e (refl, eperm, refl)
