-- ===== src/LowLevel/Unguarded.antt =====
-- `ll_open` of lib/lowlevel.c on a read-only volume.
use afpfs_ng.Common.{
  ℕ, suc, ◌≡◌, refl, ap, ◌∙◌, ◌∷◌, Bytes, true, false, not, ◌&&◌, ◌||◌, ltb, ◌==◌, none, some, val,
  if◌then◌else◌,
}
use afpfs_ng.LowLevel.Opening.{
  OpenFlags, denies_write-never, access_of, check_size, try_of, try_open, record_open, after_try,
  open_sized, ll_open,
}
use afpfs_ng.Proto.Calls.{Call, open_fork}
use afpfs_ng.Proto.Codes.{no_err}
use afpfs_ng.Volume.{Volume, World, FileInfo, request, volume_is_readonly}
use afpfs_ng.Volume.Forks.{add_opened_fork}

-- The request for the fork of the file, with reading and writing.
abbrev pub write_request : FileInfo → Volume → Call
write_request fp v = open_fork (not (fp.resource == 0)) v.volid fp.did 3 fp.basename

module _ (w : World) (fuel : ℕ) (path : Bytes) (flags : OpenFlags) (fp : FileInfo) (v : Volume)
    (writes : (flags.wronly || flags.rdwr) ≡ true) where
  -- The struct with the ID of the fork.
  abbrev got : FileInfo
  got = record fp { forkid = (request w (write_request fp v) v).0.info.forkid }

  -- With an access mode that is 3.
  abbrev mode_request : ℕ → Call
  mode_request mode = open_fork (not (fp.resource == 0)) v.volid fp.did mode fp.basename

  access_lem : access_of flags ≡ 3
  unfolding access_of
  access_lem = rw writes refl

  try_open-granted :
      (w.peer v.sent (write_request fp v)).code ≡ no_err
      → try_open w (suc fuel) path flags fp v
        ≡ ((some none, got), (request w (write_request fp v) v).1)
  unfolding try_open try_of
  try_open-granted granted =
      let ok : (w.peer v.sent (mode_request (access_of flags))).code ≡ no_err =
        ap (λ a. (w.peer v.sent (mode_request a)).code) access_lem ∙ granted in
      rw (ok, try_open)
        (ap
          (λ a.
            let r = request w (mode_request a) v in
            ((some none, record fp { forkid = r.0.info.forkid }), r.1))
          access_lem)

-- `ll_open` for writing, without emptying the file, does not look at whether the volume is
-- read-only: on such a volume too it asks the server to open the fork for writing, before anything
-- else, and if the server grants this it returns 0 and has the fork on the list of open forks.
-- Where the size is not checked first, as it is for large files before AFP 3.0.
pub ll_open-readonly :
    (w : World) (fuel : ℕ) (path : Bytes) (flags : OpenFlags) (fp : FileInfo) (v : Volume)
    → volume_is_readonly v ≡ true
    → (flags.wronly || flags.rdwr) ≡ true
    → flags.trunc ≡ false
    → (flags.largefile && ltb v.av_number 30) ≡ false
    → (w.peer v.sent (write_request fp v)).code ≡ no_err
    → let r = ll_open w (suc fuel) path flags fp v in
      (r.0.0 ≡ some (val 0))
      × (r.1.sent ≡ write_request fp v ∷ v.sent)
      × (r.1.open_forks ≡ r.0.1 ∷ v.open_forks)
unfolding ll_open open_sized after_try record_open add_opened_fork
ll_open-readonly w fuel path flags fp v ro writes keep sized granted =
    let e : ll_open w (suc fuel) path flags fp v
        ≡ after_try w flags
            ((some none, got w fuel path flags fp v writes), (request w (write_request fp v) v).1) =
      rw (denies_write-never v flags, ll_open)
        (ap
            (λ b.
              open_sized w (suc fuel) path flags (if b then check_size w fp v else ((none, fp), v)))
            sized
          ∙ ap (after_try w flags) (try_open-granted w fuel path flags fp v writes granted)) in
    rw e (rw keep (refl, refl, refl))
