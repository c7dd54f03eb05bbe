-- ===== src/Resource/Opening.antt =====
-- `appledouble_open` and `appledouble_truncate` of lib/resource.c.
use afpfs_ng.Common.{
  ℕ, Bytes, Bool, true, false, Option, none, some, ◌==◌, if◌then◌else◌, val, fail, enoent, eio,
  eisdir, eperm,
}
use afpfs_ng.Did.Lookup.{get_dirid}
use afpfs_ng.LowLevel.Entry.{ll_zero_file}
use afpfs_ng.LowLevel.Opening.{OpenFlags, ll_open}
use afpfs_ng.MidLevel.Guards.{place}
use afpfs_ng.Proto.Calls.{open_dt, open_fork, close_fork}
use afpfs_ng.Proto.Codes.{Code, is_no_err, param_err, misc_err}
use afpfs_ng.Resource.Refuse.{Absorbed, go_on, done, refused}
use afpfs_ng.Resource.Translate.{
  Meta, no_meta, resource, apple_double, finder_info, comment, server_icon, extra_translate,
}
use afpfs_ng.Volume.{Volume, World, FileInfo, M, request}
use afpfs_ng.Volume.Forks.{remove_opened_fork}

-- AFP_META_* as `fp->resource` holds it.
abbrev pub meta_number : Meta → ℕ
meta_number no_meta = 0
meta_number resource = 1
meta_number apple_double = 2
meta_number finder_info = 3
meta_number comment = 4
meta_number server_icon = 5

-- "afp_opendt" into `volume->dtrefnum`, where it is 0. True for kFPParamErr and kFPMiscErr.
abbrev is_broken : Code → Bool
is_broken param_err = true
is_broken misc_err = true
is_broken _ = false

unfoldable pub open_desktop : World → M Bool
open_desktop w v =
    let r = request w (open_dt v.volid) v in
    let stored = if is_no_err r.0.code then record r.1 { dtrefnum = r.0.number } else r.1 in
    if v.dtrefnum == 0 then (is_broken r.0.code, stored) else (false, v)

-- The file that a metadata name belongs to, in the struct.
abbrev located : FileInfo → ℕ × Bytes → FileInfo
located fp at = record fp { did = at.0; basename = at.1 }

-- The result with the struct; `none` where `ll_open` goes on after its fuel.
unfoldable pub appledouble_open :
    World → (fuel : ℕ) → Bytes → OpenFlags → FileInfo → M (Option Absorbed × FileInfo)
unfolding extra_translate get_dirid ll_open open_desktop
appledouble_open w fuel path flags fp v =
    let t = extra_translate v path in
    let fp' = record fp { resource = meta_number t.0 } in
    let at = get_dirid w t.1 v in
    let lost : (Option Absorbed × FileInfo) × Volume = ((some (refused enoent), fp'), at.1) in
    elim t.0 [
      | no_meta ↦ ((some go_on, fp'), v)
      | server_icon ↦ ((some done, fp'), v)
      | apple_double ↦ ((some (refused eisdir), fp'), v)
      | finder_info ↦ elim at.0 [ none ↦ lost | some x ↦ ((some done, located fp' x), at.1) ]
      | comment ↦ elim at.0 [
        | none ↦ lost
        | some x ↦
            let desk = open_desktop w at.1 in
            ((some (if desk.0 then refused eio else done), located fp' x), desk.1)
      ]
      | resource ↦ elim at.0 [
        | none ↦ lost
        | some x ↦
            let o = ll_open w fuel t.1 flags (located fp' x) at.1 in
            elim o.0.0 [
              | none ↦ ((none, o.0.1), o.1)
              | some (fail e) ↦ ((some (refused e), o.0.1), o.1)
              | some (val n) ↦ ((some done, o.0.1), o.1)
            ]
      ]
    ]

-- The resource fork is opened with O_WRONLY, 1, as access mode. `ll_zero_file` gives a positive
-- errno, so that `ret<0` does not hold.
unfoldable pub appledouble_truncate : World → Bytes → M Absorbed
unfolding extra_translate place ll_zero_file remove_opened_fork
appledouble_truncate w path v =
    let t = extra_translate v path in
    let at = place w t.1 v in
    let r = request w (open_fork true at.1.volid at.0.0 1 at.0.1) at.1 in
    let fp = if is_no_err r.0.code then record w.junk { forkid = r.0.info.forkid } else w.junk in
    let emptied = ll_zero_file w fp.forkid false r.1 in
    let closed = (request w (close_fork fp.forkid) emptied.1).1 in
    elim t.0 [
      | no_meta ↦ (go_on, v)
      | resource ↦ (done, (remove_opened_fork fp closed).1)
      | apple_double ↦ (refused eisdir, v)
      | finder_info ↦ (done, v)
      | comment ↦ (done, v)
      | server_icon ↦ (refused eperm, v)
    ]
