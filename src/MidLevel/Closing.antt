-- ===== src/MidLevel/Closing.antt =====
-- `afp_ml_close` and `afp_ml_statfs` of lib/midlevel.c, with `appledouble_close` of lib/resource.c.
use afpfs_ng.Codepage.{convert_path_to_afp}
use afpfs_ng.Common.{
  ℕ, ◌+◌, ◌≡◌, List, ◌∷◌, arith, ap, ◌∙◌, ◌==◌, refl, Bytes, true, false, ltb, Option, none, some,
  if◌then◌else◌, Ret, val, fail, Errno, ebadf, eio, einval, enametoolong, Bool-cases, inl, inr,
}
use afpfs_ng.LowLevel.Entry.{ll_zero_file}
use afpfs_ng.LowLevel.Opening.{OpenFlags, record_open}
use afpfs_ng.Names.{invalid_filename}
use afpfs_ng.Proto.Calls.{close_fork, get_vol_parms}
use afpfs_ng.Proto.Codes.{is_no_err}
use afpfs_ng.Volume.{Volume, World, FileInfo, M, request}
use afpfs_ng.Volume.Forks.{add_opened_fork, unlink_fork, remove_opened_fork}

-- The results: those of other calls, and an errno that is not negated.
pub data Closed : Type 0 where
  returned : Ret → Closed
  positive : Errno → Closed

-- By `fp->resource`, AFP_META_*. The fork stays on the list of the volume.
unfoldable pub appledouble_close : World → FileInfo → M Ret
appledouble_close w fp v =
    let r = request w (close_fork fp.forkid) v in
    let closed : Ret × Volume = (if is_no_err r.0.code then val 0 else fail eio, r.1) in
    if fp.resource == 1
    then closed
    else if fp.resource == 2
    then (fail ebadf, v)
    else if fp.resource == 5
    then (val 1, v)
    else (val 0, v)

unfoldable pub close_file : World → FileInfo → M Closed
unfolding remove_opened_fork
close_file w fp v =
    let r = request w (close_fork fp.forkid) v in
    if is_no_err r.0.code
    then (returned (val 0), (remove_opened_fork fp r.1).1)
    else (positive eio, r.1)

-- `fp` may be null. The icon that it owns is only freed.
unfoldable pub afp_ml_close : World → Bytes → Option FileInfo → M Closed
unfolding appledouble_close close_file
afp_ml_close w path fp v =
    let meta : FileInfo → Closed × Volume =
      λ f. (let a = appledouble_close w f v in (returned a.0, a.1)) in
    let given : Closed × Volume = elim fp [
      | none ↦ (positive ebadf, v)
      | some f ↦ if f.resource == 0 then close_file w f v else meta f
    ] in
    elim (convert_path_to_afp v.path_encoding path) [
      | none ↦ (returned (fail einval), v)
      | some converted_path ↦
          if invalid_filename v.av_number v.path_encoding converted_path
          then (returned (fail enametoolong), v)
          else given
    ]

-- kFPVolBytesFreeBit and kFPVolBytesTotalBit, or the long ones with kFPVolBlockSizeBit.
unfoldable pub stat_bits : Volume → ℕ
stat_bits v = if ltb v.av_number 30 then 0x40 + 0x80 else 0x200 + 0x400 + 0x800

-- The result; the reply handler fills `stat`.
unfoldable pub afp_ml_statfs : World → M Ret
unfolding stat_bits
afp_ml_statfs w v =
    let r = request w (get_vol_parms v.volid (stat_bits v)) v in
    (if is_no_err r.0.code then val 0 else fail eio, r.1)

record_open_forks :
    (w : World) (flags : OpenFlags) (fp : FileInfo) (v : Volume)
    → (record_open w flags fp v).1.open_forks ≡ fp ∷ v.open_forks
unfolding record_open add_opened_fork ll_zero_file
record_open_forks w flags fp v = elim (Bool-cases flags.trunc) [
  | inl e ↦ rw e refl
  | inr e ↦ rw e refl
]

close_file_forks :
    (w : World) (fp : FileInfo) (v : Volume) (forks : List FileInfo)
    → v.open_forks ≡ fp ∷ forks
    → let granted = is_no_err (w.peer v.sent (close_fork fp.forkid)).code in
      let r = close_file w fp v in
      (r.0 ≡ (if granted then returned (val 0) else positive eio))
      × (r.1.open_forks ≡ (if granted then forks else fp ∷ forks))
unfolding close_file remove_opened_fork unlink_fork
close_file_forks w fp v forks listed =
    elim (Bool-cases (is_no_err (w.peer v.sent (close_fork fp.forkid)).code)) [
      | inl ok ↦ (rw ok refl, ground (arith, ok, listed))
      | inr bad ↦ (rw bad refl, rw bad listed)
    ]

record_open_server :
    (w : World) (flags : OpenFlags) (fp : FileInfo) (v : Volume)
    → let u = (record_open w flags fp v).1 in
      (u.path_encoding ≡ v.path_encoding) × (u.av_number ≡ v.av_number)
unfolding record_open add_opened_fork ll_zero_file
record_open_server w flags fp v = elim (Bool-cases flags.trunc) [
  | inl e ↦ rw e (refl, refl)
  | inr e ↦ rw e (refl, refl)
]

afp_ml_close-close_file :
    (w : World) (fp : FileInfo) (path converted : Bytes) (v : Volume)
    → (fp.resource == 0) ≡ true
    → convert_path_to_afp v.path_encoding path ≡ some converted
    → invalid_filename v.av_number v.path_encoding converted ≡ false
    → afp_ml_close w path (some fp) v ≡ close_file w fp v
unfolding afp_ml_close
afp_ml_close-close_file w fp path converted v plain conv valid =
    rw (conv, afp_ml_close) (rw (valid, plain) refl)

-- A file that `ll_open` has put onto the list of open forks is taken off by `afp_ml_close` if the
-- server grants this, with the result 0, and the forks opened before are left. If it does not, the
-- fork stays on the list, and the result is EIO, not negated. The file is no metadata file, and its
-- path converts to one that the server may have.
pub afp_ml_close-record_open :
    (w : World) (flags : OpenFlags) (fp : FileInfo) (path converted : Bytes) (v : Volume)
    → fp.resource ≡ 0
    → convert_path_to_afp v.path_encoding path ≡ some converted
    → invalid_filename v.av_number v.path_encoding converted ≡ false
    → let opened = (record_open w flags fp v).1 in
      let granted = is_no_err (w.peer opened.sent (close_fork fp.forkid)).code in
      let closed = afp_ml_close w path (some fp) opened in
      (closed.0 ≡ (if granted then returned (val 0) else positive eio))
      × (closed.1.open_forks ≡ (if granted then v.open_forks else fp ∷ v.open_forks))
afp_ml_close-record_open w flags fp path converted v plain conv valid =
    let u = (record_open w flags fp v).1 in
    let (enc, av) = record_open_server w flags fp v in
    let plain' : (fp.resource == 0) ≡ true = ground (arith, plain) in
    let conv' : convert_path_to_afp u.path_encoding path ≡ some converted =
      ap (λ e. convert_path_to_afp e path) enc ∙ conv in
    let valid' : invalid_filename u.av_number u.path_encoding converted ≡ false =
      ap (λ e. invalid_filename u.av_number e converted) enc
      ∙ (ap (λ a. invalid_filename a v.path_encoding converted) av ∙ valid) in
    rw (afp_ml_close-close_file w fp path converted u plain' conv' valid')
      (close_file_forks w fp u v.open_forks (record_open_forks w flags fp v))
