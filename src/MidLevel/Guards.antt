-- ===== src/MidLevel/Guards.antt =====
-- What the operations of lib/midlevel.c have in common: the conversion of a path, the tests that
-- refuse an operation, and the place of a path. Each passes the volume on to the rest of the
-- operation.
use afpfs_ng.Codepage.{convert_path_to_afp}
use afpfs_ng.Common.{
  ℕ, Bytes, none, some, if◌then◌else◌, Ret, val, fail, eacces, einval, enametoolong,
}
use afpfs_ng.Did.Lookup.{get_dirid}
use afpfs_ng.Names.{invalid_filename}
use afpfs_ng.Resource.Refuse.{Absorbed, go_on, done, refused, appledouble_refuse}
use afpfs_ng.Volume.{World, M, volume_is_readonly}

-- `if (convert_path_to_afp(...)) return -EINVAL;`
abbrev pub with_converted : Bytes → (Bytes → M Ret) → M Ret
with_converted path rest v = elim (convert_path_to_afp v.path_encoding path) [
  | none ↦ (fail einval, v)
  | some converted_path ↦ rest converted_path v
]

-- `if (invalid_filename(...)) return -ENAMETOOLONG;`
abbrev pub unless_invalid : Bytes → M Ret → M Ret
unless_invalid name rest v =
    if invalid_filename v.av_number v.path_encoding name then (fail enametoolong, v) else rest v

-- `if (volume_is_readonly(vol)) return -EACCES;`
abbrev pub unless_readonly : M Ret → M Ret
unless_readonly rest v = if volume_is_readonly v then (fail eacces, v) else rest v

-- The result of an appledouble_* function, at which most operations end.
abbrev pub unless_absorbed : Absorbed → M Ret → M Ret
unless_absorbed a rest v = elim a [ go_on ↦ rest v | done ↦ (val 0, v) | refused e ↦ (fail e, v) ]

abbrev pub unless_meta : Bytes → M Ret → M Ret
unless_meta path rest v = unless_absorbed (appledouble_refuse v path) rest v

-- `get_dirid` with its result ignored: where it fails, the ID and the name hold what they held.
unfoldable pub place : World → Bytes → M (ℕ × Bytes)
unfolding get_dirid
place w path v =
    let r = get_dirid w path v in
    (elim r.0 [ some found ↦ found | none ↦ (w.junk.did, w.junk.basename) ], r.1)
