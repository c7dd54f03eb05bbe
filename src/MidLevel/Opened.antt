-- ===== src/MidLevel/Opened.antt =====
-- `afp_ml_open` and `afp_ml_truncate` of lib/midlevel.c.
use afpfs_ng.Codepage.{convert_path_to_afp}
use afpfs_ng.Common.{
  ℕ, Bytes, Bool, true, false, ◌&&◌, ◌||◌, Option, none, some, if◌then◌else◌, Ret, val, fail,
  eacces, einval, enametoolong, enoent,
}
use afpfs_ng.Did.Lookup.{get_dirid}
use afpfs_ng.LowLevel.Entry.{ll_zero_file}
use afpfs_ng.LowLevel.Opening.{OpenFlags, ll_open}
use afpfs_ng.Names.{invalid_filename}
use afpfs_ng.Proto.Calls.{close_fork}
use afpfs_ng.Replies.Block.{cleared}
use afpfs_ng.Resource.Opening.{appledouble_open, appledouble_truncate}
use afpfs_ng.Resource.Refuse.{go_on, done, refused}
use afpfs_ng.Volume.{Volume, World, FileInfo, M, request, volume_is_readonly}
use afpfs_ng.Volume.Forks.{remove_opened_fork}

-- The flags of an opening that changes the file.
unfoldable pub changes : OpenFlags → Bool
changes flags = flags.wronly || flags.rdwr || flags.trunc || flags.append || flags.creat

-- A file that is not a metadata name.
unfoldable pub open_at :
    World → (fuel : ℕ) → Bytes → OpenFlags → FileInfo → M (Option Ret × FileInfo)
unfolding get_dirid ll_open
open_at w fuel converted_path flags fp v =
    let at = get_dirid w converted_path v in
    elim at.0 [
      | none ↦ ((some (fail enoent), fp), at.1)
      | some (dirid, basename) ↦
          ll_open w fuel converted_path flags (record fp { did = dirid; basename = basename }) at.1
    ]

-- `ptr` is the address that `malloc` gives. `none` where `ll_open` goes on after its fuel.
unfoldable pub afp_ml_open :
    World → (fuel : ℕ) → Bytes → OpenFlags → (ptr : ℕ) → M (Option Ret × FileInfo)
unfolding changes appledouble_open open_at cleared
afp_ml_open w fuel path flags ptr v =
    let fp = cleared ptr in
    let meta = appledouble_open w fuel path flags fp v in
    elim (convert_path_to_afp v.path_encoding path) [
      | none ↦ ((some (fail einval), fp), v)
      | some converted_path ↦
          let rest : (Option Ret × FileInfo) × Volume = elim meta.0.0 [
            | none ↦ ((none, meta.0.1), meta.1)
            | some (refused e) ↦ ((some (fail e), meta.0.1), meta.1)
            | some done ↦ ((some (val 0), meta.0.1), meta.1)
            | some go_on ↦ open_at w fuel converted_path flags meta.0.1 meta.1
          ] in
          if invalid_filename v.av_number v.path_encoding converted_path
          then ((some (fail enametoolong), fp), v)
          else if volume_is_readonly v && changes flags
          then ((some (fail eacces), fp), v)
          else rest
    ]

abbrev pub write_only : OpenFlags
write_only = record {
  wronly = true;
  rdwr = false;
  append = false;
  creat = false;
  trunc = false;
  largefile = false;
}

-- The file is emptied, whatever `offset` is. Where it cannot be opened the source returns `ret`,
-- which is still 0; where it cannot be emptied the fork stays open.
unfoldable pub empty_file : World → (fuel : ℕ) → Bytes → (ptr : ℕ) → M (Option Ret)
unfolding afp_ml_open ll_zero_file remove_opened_fork
empty_file w fuel path ptr v =
    let o = afp_ml_open w fuel path write_only ptr v in
    let emptied = ll_zero_file w o.0.1.forkid false o.1 in
    let closed = (request w (close_fork o.0.1.forkid) emptied.1).1 in
    let opened : Option Ret × Volume = elim emptied.0 [
      | some e ↦ (some (fail e), emptied.1)
      | none ↦ (some (val 0), (remove_opened_fork o.0.1 closed).1)
    ] in
    elim o.0.0 [ none ↦ (none, o.1) | some (fail e) ↦ (some (val 0), o.1) | some (val n) ↦ opened ]

unfoldable pub afp_ml_truncate : World → (fuel : ℕ) → Bytes → (offset ptr : ℕ) → M (Option Ret)
unfolding appledouble_truncate empty_file
afp_ml_truncate w fuel path offset ptr v =
    let meta = appledouble_truncate w path v in
    let rest : Option Ret × Volume = elim meta.0 [
      | refused e ↦ (some (fail e), meta.1)
      | done ↦ (some (val 0), meta.1)
      | go_on ↦ empty_file w fuel path ptr meta.1
    ] in
    elim (convert_path_to_afp v.path_encoding path) [
      | none ↦ (some (fail einval), v)
      | some converted_path ↦
          if invalid_filename v.av_number v.path_encoding converted_path
          then (some (fail enametoolong), v)
          else if volume_is_readonly v
          then (some (fail eacces), v)
          else rest
    ]
