-- ===== src/LowLevel/Opening.antt =====
-- `ll_open` of lib/lowlevel.c.
use afpfs_ng.Common.{
  ◌≡◌, refl, Bool-cases, inl, inr, ℕ, zero, suc, ◌+◌, Bytes, Bool, true, false, not, ◌&&◌, ◌||◌,
  bit_and, ltb, ◌==◌, Option, none, some, if◌then◌else◌, Ret, val, fail, Errno, eperm, enoent, eio,
  eacces, efault, eisdir, emfile, erofs, eoverflow,
}
use afpfs_ng.LowLevel.Entry.{ll_get_directory_entry, ll_zero_file}
use afpfs_ng.MidLevel.Create.{afp_ml_creat}
use afpfs_ng.Proto.Calls.{open_fork}
use afpfs_ng.Proto.Codes
use afpfs_ng.Proto.Codes.{
  Code, no_err, access_denied, object_not_found, object_locked, object_type_err, param_err,
  too_many_files_open, is_no_err,
}
use afpfs_ng.Volume.{Volume, World, FileInfo, M, request, volume_is_readonly}
use afpfs_ng.Volume.Forks.{add_opened_fork}

-- The bits of `flags` that are tested.
pub record OpenFlags : Type 0 where
  pub wronly : Bool
  pub rdwr : Bool
  pub append : Bool
  pub creat : Bool
  pub trunc : Bool
  pub largefile : Bool

-- AFP_OPENFORK_ALLOWREAD and AFP_OPENFORK_ALLOWWRITE.
unfoldable pub access_of : OpenFlags → ℕ
access_of flags = if flags.wronly || flags.rdwr then 3 else 1

-- `(aflags&AFP_OPENFORK_ALLOWWRITE) & (volume_is_readonly(volume))`, where the macro is 0 or 1.
unfoldable pub denies_write : Volume → OpenFlags → Bool
unfolding access_of
denies_write v flags =
    not (bit_and (bit_and (access_of flags) 2) (if volume_is_readonly v then 1 else 0) == 0)

unfoldable pub entry_error : Code → Option Errno
entry_error no_err = none
entry_error access_denied = some eacces
entry_error object_not_found = some enoent
entry_error _ = some eio

-- A server below AFP 3.0 says how long the fork is; 4 GB and more is too long.
unfoldable pub check_size : World → FileInfo → M (Option Errno × FileInfo)
unfolding ll_get_directory_entry entry_error
check_size w fp v =
    let rsrc = not (fp.resource == 0) in
    let bits =
      Codes.parent_dir_id_bit
      + Codes.node_id_bit
      + (if rsrc then Codes.rsrc_fork_len_bit else Codes.data_fork_len_bit) in
    let r = ll_get_directory_entry w fp.basename fp.did bits 0 fp v in
    let length = if rsrc then r.0.1.resourcesize else r.0.1.size in
    let long : Option Errno = if ltb length 4294967295 then none else some eoverflow in
    elim (entry_error r.0.0) [ some e ↦ ((some e, r.0.1), r.1) | none ↦ ((long, r.0.1), r.1) ]

-- What the switch over the result of `afp_openfork` does.
pub data Try : Type 0 where
  opened missing : Try
  give_up : Errno → Try

unfoldable pub try_of : Code → Try
try_of no_err = opened
try_of object_not_found = missing
try_of access_denied = give_up eacces
try_of object_locked = give_up erofs
try_of object_type_err = give_up eisdir
try_of param_err = give_up eacces
try_of too_many_files_open = give_up emfile
try_of _ = give_up efault

abbrev mode_made_up : ℕ
mode_made_up = 420

-- `try_again`: a file that is missing is created, and opened again. `none` is a loop that goes on.
unfoldable pub try_open :
    World → (fuel : ℕ) → Bytes → OpenFlags → FileInfo → M (Option (Option Errno) × FileInfo)
unfolding access_of try_of afp_ml_creat
try_open w zero path flags fp v = ((none, fp), v)
try_open w (suc fuel) path flags fp v =
    let r =
      request w (open_fork (not (fp.resource == 0)) v.volid fp.did (access_of flags) fp.basename)
        v in
    let made = afp_ml_creat w path mode_made_up r.1 in
    let got = record fp { forkid = r.0.info.forkid } in
    elim (try_of r.0.code) [
      | opened ↦ ((some none, got), r.1)
      | give_up e ↦ ((some (some e), fp), r.1)
      | missing ↦ elim flags.creat [
        | false ↦ ((some (some enoent), fp), r.1)
        | true ↦ elim made.0 [
          | fail e ↦ ((some (some enoent), fp), made.1)
          | val n ↦ elim (n == 0) [
            | true ↦ try_open w fuel path flags fp made.1
            | false ↦ ((some (some enoent), fp), made.1)
          ]
        ]
      ]
    ]

-- The opened fork goes onto the list, and is emptied if that is asked for.
unfoldable pub record_open : World → OpenFlags → FileInfo → M Ret
unfolding add_opened_fork ll_zero_file
record_open w flags fp v =
    let listed = (add_opened_fork fp v).1 in
    let emptied = ll_zero_file w fp.forkid (not (fp.resource == 0)) listed in
    let ret : Ret = elim emptied.0 [ none ↦ val 0 | some e ↦ fail e ] in
    if flags.trunc then (ret, emptied.1) else (val 0, listed)

-- Behind the switch.
unfoldable pub after_try :
    World
    → OpenFlags
    → (Option (Option Errno) × FileInfo) × Volume
    → (Option Ret × FileInfo) × Volume
unfolding record_open
after_try w flags ((none, info), u) = ((none, info), u)
after_try w flags ((some (some e), info), u) = ((some (fail e), info), u)
after_try w flags ((some none, info), u) =
    let kept = record_open w flags info u in ((some kept.0, info), kept.1)

-- Behind the check of the size.
unfoldable pub open_sized :
    World
    → (fuel : ℕ) → Bytes
    → OpenFlags
    → (Option Errno × FileInfo) × Volume
    → (Option Ret × FileInfo) × Volume
unfolding try_open after_try
open_sized w fuel path flags ((some e, info), u) = ((some (fail e), info), u)
open_sized w fuel path flags ((none, info), u) =
    after_try w flags (try_open w fuel path flags info u)

unfoldable pub ll_open :
    World → (fuel : ℕ) → Bytes → OpenFlags → FileInfo → M (Option Ret × FileInfo)
unfolding denies_write check_size open_sized
ll_open w fuel path flags fp v =
    let sized : (Option Errno × FileInfo) × Volume =
      if flags.largefile && ltb v.av_number 30 then check_size w fp v else ((none, fp), v) in
    let done = open_sized w fuel path flags sized in
    if denies_write v flags then ((some (fail eperm), fp), v) else done

-- The test takes the bit 2 of the access mode, and of that the bits of 0 or 1.
pub denies_write-never : (v : Volume) (flags : OpenFlags) → denies_write v flags ≡ false
unfolding denies_write access_of
denies_write-never v flags = elim (Bool-cases (volume_is_readonly v)) [
  | inl e ↦ elim (Bool-cases (flags.wronly || flags.rdwr)) [
    | inl a ↦ rw (e, a) refl
    | inr a ↦ rw (e, a) refl
  ]
  | inr e ↦ elim (Bool-cases (flags.wronly || flags.rdwr)) [
    | inl a ↦ rw (e, a) refl
    | inr a ↦ rw (e, a) refl
  ]
]
