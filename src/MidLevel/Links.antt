-- ===== src/MidLevel/Links.antt =====
-- `afp_ml_readlink` and `afp_ml_symlink` of lib/midlevel.c. The struct of the fork stands on the
-- stack of these functions, and holds what `junk` of the world says.
use afpfs_ng.Codepage.{convert_path_to_afp, convert_path_to_unix}
use afpfs_ng.Common.{
  ℕ, [], ◌∷◌, Bytes, false, ltb, none, some, if◌then◌else◌, length, replicate, Ret, val, fail,
  eacces, ebusy, efault, eexist, einval, eio, eisdir, emfile, enoent, enospc, enosys, eperm, erofs,
}
use afpfs_ng.LowLevel.Locks.{has_ext}
use afpfs_ng.LowLevel.Transfer.{read_call}
use afpfs_ng.MidLevel.Guards.{with_converted, unless_readonly, unless_meta, place}
use afpfs_ng.MidLevel.Privs.{parms_of}
use afpfs_ng.Proto.Calls.{open_fork, close_fork, write_ext, create_file, set_file_dir_parms}
use afpfs_ng.Proto.Codes.{
  Code, no_err, access_denied, bitmap_err, deny_conflict, disk_full, file_busy, lock_err, misc_err,
  object_exists, object_locked, object_not_found, object_type_err, param_err, too_many_files_open,
  vol_locked, finder_info_bit, is_no_err,
}
use afpfs_ng.Volume.{Volume, World, FileInfo, M, request}
use afpfs_ng.Volume.Forks.{add_opened_fork, remove_opened_fork}

-- Where the link is opened; four refusals count as success.
unfoldable pub open_result : Code → Ret
open_result no_err = val 0
open_result vol_locked = val 0
open_result deny_conflict = val 0
open_result misc_err = val 0
open_result bitmap_err = val 0
open_result access_denied = fail eacces
open_result object_not_found = fail enoent
open_result object_locked = fail erofs
open_result object_type_err = fail eisdir
open_result param_err = fail eacces
open_result too_many_files_open = fail emfile
open_result _ = fail efault

-- Codes that are not listed go on.
unfoldable pub readlink_result : Code → Ret
readlink_result access_denied = fail eacces
readlink_result lock_err = fail ebusy
readlink_result misc_err = fail eio
readlink_result param_err = fail eio
readlink_result _ = val 0

-- The struct with the ID of the fork, if one was opened.
abbrev pub opened_fork : World → Code → (forkid : ℕ) → FileInfo
opened_fork w c forkid = if is_no_err c then record w.junk { forkid = forkid } else w.junk

-- The link is read, and its fork closed. Where this fails the fork stays on the list.
unfoldable pub read_target : World → FileInfo → (size : ℕ) → M (Ret × Bytes)
unfolding readlink_result remove_opened_fork
read_target w fp size v =
    let r = request w (read_call (has_ext v) fp.forkid 0 size) v in
    let closed = request w (close_fork fp.forkid) r.1 in
    let target : Bytes = elim (convert_path_to_unix w.unicode v.path_encoding r.0.contents) [
      | none ↦ []
      | some t ↦ t
    ] in
    let done : (Ret × Bytes) × Volume =
      if is_no_err closed.0.code
      then ((val 0, target), (remove_opened_fork fp closed.1).1)
      else ((fail eio, []), closed.1) in
    elim (readlink_result r.0.code) [ fail e ↦ ((fail e, []), r.1) | val n ↦ done ]

-- With what is put into the buffer.
unfoldable pub afp_ml_readlink : World → Bytes → (size : ℕ) → M (Ret × Bytes)
unfolding place open_result add_opened_fork read_target
afp_ml_readlink w path size v = elim (convert_path_to_afp v.path_encoding path) [
  | none ↦ ((fail einval, []), v)
  | some converted_path ↦
      let at = place w converted_path v in
      let o = request w (open_fork false at.1.volid at.0.0 3 at.0.1) at.1 in
      let fp = opened_fork w o.0.code o.0.info.forkid in
      let read = read_target w fp size (add_opened_fork fp o.1).1 in
      elim (open_result o.0.code) [ fail e ↦ ((fail e, []), o.1) | val n ↦ read ]
]

unfoldable pub link_creat_result : Code → Ret
link_creat_result no_err = val 0
link_creat_result access_denied = fail eacces
link_creat_result disk_full = fail enospc
link_creat_result object_exists = fail eexist
link_creat_result object_not_found = fail enoent
link_creat_result file_busy = fail ebusy
link_creat_result vol_locked = fail ebusy
link_creat_result _ = fail eio

unfoldable pub magic_result : Code → Ret
magic_result no_err = val 0
magic_result access_denied = fail eperm
magic_result bitmap_err = fail enosys
magic_result object_not_found = fail enoent
magic_result _ = fail eio

-- "slnkrhap": the Finder information of a link.
abbrev pub link_finderinfo : Bytes
link_finderinfo = b's' ∷ b'l' ∷ b'n' ∷ b'k' ∷ b'r' ∷ b'h' ∷ b'a' ∷ b'p' ∷ replicate 24 0

-- The result of opening the fork is not looked at, nor the one of the write.
unfoldable pub write_target : World → (target : Bytes) → (dirid : ℕ) → Bytes → M Ret
unfolding add_opened_fork remove_opened_fork magic_result
write_target w target dirid basename v =
    let o = request w (open_fork false v.volid dirid 3 basename) v in
    let fp = opened_fork w o.0.code o.0.info.forkid in
    let listed = (add_opened_fork fp o.1).1 in
    let written = (request w (write_ext fp.forkid 0 (length target) target) listed).1 in
    let closed = request w (close_fork fp.forkid) written in
    let removed = (remove_opened_fork fp closed.1).1 in
    let parms = parms_of (record fp { finderinfo = link_finderinfo }) in
    let magic =
      request w (set_file_dir_parms removed.volid dirid finder_info_bit basename parms) removed in
    if is_no_err closed.0.code then (magic_result magic.0.code, magic.1) else (fail eio, closed.1)

unfoldable pub make_link : World → (target path : Bytes) → M Ret
unfolding place link_creat_result write_target
make_link w target path v =
    let at = place w path v in
    let r = request w (create_file at.1.volid 128 at.0.0 at.0.1) at.1 in
    let made = write_target w target at.0.0 at.0.1 r.1 in
    elim (link_creat_result r.0.code) [ fail e ↦ (fail e, r.1) | val n ↦ made ]

unfoldable pub afp_ml_symlink : World → (path1 path2 : Bytes) → M Ret
unfolding make_link
afp_ml_symlink w path1 path2 v =
    let converted : M Ret = with_converted path1 λ target.
      with_converted path2 λ path. unless_readonly (unless_meta path1 (make_link w target path)) in
    if ltb v.av_number 30 then (fail enosys, v) else converted v
