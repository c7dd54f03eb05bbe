-- ===== src/Resource/Content.antt =====
-- `appledouble_read`, `appledouble_write` and `appledouble_getattr` of lib/resource.c.
use afpfs_ng.Common.{
  ℕ, ◌+◌, ◌-◌, Bytes, Bool, true, false, not, ◌&&◌, bit_or, ltb, leb, ◌==◌, none, some,
  if◌then◌else◌, length, take, min, Ret, val, fail, eacces, ebadf, efault, einval, eio, enoent,
  eperm,
}
use afpfs_ng.Common.Memory.{write_at}
use afpfs_ng.Did.Lookup.{get_dirid}
use afpfs_ng.LowLevel.Attr.{Stat, s_ifdir, s_ifreg, ll_getattr}
use afpfs_ng.LowLevel.Entry.{ll_get_directory_entry}
use afpfs_ng.LowLevel.Transfer.{ll_read, ll_write}
use afpfs_ng.MidLevel.Privs.{parms_of}
use afpfs_ng.Proto.Calls.{open_dt, get_comment, add_comment, set_file_dir_parms}
use afpfs_ng.Proto.Codes.{
  Code, no_err, access_denied, misc_err, param_err, item_not_found, object_not_found,
  finder_info_bit, is_no_err,
}
use afpfs_ng.Resource.Translate.{
  no_meta, resource, apple_double, finder_info, comment, server_icon, extra_translate,
}
use afpfs_ng.Volume.{Volume, World, FileInfo, M, request}

-- The `int` that is returned: a count, a status or a negated errno, or the code of a request as it
-- came, which is negative; and `-n` for another negative number.
pub data Result : Type 0 where
  returned : Ret → Result
  code : Code → Result
  negative : ℕ → Result

-- What a read gives: the result, the buffer, `*amount_read`, `*eof`, and the struct.
pub record Reading : Type 0 where
  pub ret : Result
  pub buf : Bytes
  pub amount_read : ℕ
  pub eof : Bool
  pub fp : FileInfo

-- What FPGetComment makes of a read: other codes leave `ret` as it was.
unfoldable pub comment_read : (ret : Result) → Code → (contents : Bytes) → Reading → Reading
unfolding write_at
comment_read ret no_err contents r = record r {
  ret = returned (val 1);
  buf = write_at 0 contents r.buf;
  amount_read = length contents;
  eof = true;
  fp = record r.fp { eof = true };
}
comment_read ret access_denied contents r = record r { ret = returned (fail eacces) }
comment_read ret misc_err contents r = record r { ret = returned (fail eio) }
comment_read ret param_err contents r = record r { ret = returned (fail eio) }
comment_read ret item_not_found contents r = record r { ret = returned (fail enoent) }
comment_read ret object_not_found contents r = record r { ret = returned (fail enoent) }
comment_read ret _ contents r = record r { ret = ret }

-- The case AFP_META_COMMENT, into which the one of the Finder information falls.
unfoldable pub read_comment : World → (ret : Result) → Reading → M Reading
unfolding comment_read
read_comment w ret r v =
    let got = request w (get_comment v.dtrefnum r.fp.did r.fp.basename) v in
    if r.fp.eof
    then (record r { ret = returned (val 1) }, v)
    else (comment_read ret got.0.code got.0.contents r, got.1)

-- The first bytes of what is there go to `buf+offset`, up to its end.
unfoldable pub read_from : (all : Bytes) → (offset : ℕ) → Reading → Reading
unfolding write_at
read_from all offset r =
    let tocopy = min (length r.buf) (length all - offset) in
    record r { buf = write_at offset (take tocopy all) r.buf; amount_read = tocopy }

-- The case AFP_META_FINDERINFO.
unfoldable pub read_finderinfo : World → (offset : ℕ) → Reading → M Reading
unfolding ll_get_directory_entry read_from read_comment
read_finderinfo w offset r v =
    let e =
      ll_get_directory_entry w r.fp.basename r.fp.did finder_info_bit finder_info_bit r.fp v in
    let copied = read_from (take 32 e.0.1.finderinfo) offset (record r { fp = e.0.1 }) in
    let ended = record copied { eof = offset + copied.amount_read == 32 } in
    if ltb 32 offset
    then (record r { ret = returned (fail efault) }, v)
    else if is_no_err e.0.0
    then read_comment w (returned (val 0)) ended e.1
    else (record r { ret = code e.0.0; fp = e.0.1 }, e.1)

-- `junk` is what `ret` holds where nothing is put into it.
unfoldable pub appledouble_read :
    World → (junk : Result) → FileInfo → (buf : Bytes) → (offset : ℕ) → M Reading
unfolding ll_read read_finderinfo read_comment read_from
appledouble_read w junk fp buf offset v =
    let r : Reading = record {
      ret = returned (val 0);
      buf = buf;
      amount_read = 0;
      eof = false;
      fp = fp;
    } in
    let fork = ll_read w (length buf) offset fp.forkid v in
    let icon = read_from (take 256 v.icon) offset r in
    let refused : Reading × Volume = (record r { ret = returned (fail ebadf) }, v) in
    let far : Reading × Volume = (record r { ret = returned (fail efault) }, v) in
    if fp.resource == 1
    then (
      record r { ret = returned fork.0.0; buf = write_at 0 fork.0.1 buf; eof = fork.0.2 },
      fork.1,
    )
    else if fp.resource == 2
    then refused
    else if fp.resource == 3
    then read_finderinfo w offset r v
    else if fp.resource == 4
    then read_comment w junk r v
    else if fp.resource == 5
    then if ltb 256 offset
      then far
      else (record icon { ret = returned (val 1); eof = true; fp = record fp { eof = true } }, v)
    else (r, v)

-- What a write gives: the result, `*totalwritten`, and the struct.
pub record Writing : Type 0 where
  pub ret : Result
  pub totalwritten : ℕ
  pub fp : FileInfo

-- The case AFP_META_FINDERINFO. What the server has is read into another struct, and is not used.
unfoldable pub write_finderinfo : World → FileInfo → (contents : Bytes) → (offset : ℕ) → M Writing
unfolding ll_get_directory_entry write_at
write_finderinfo w fp contents offset v =
    let kept : Writing = record { ret = returned (val 1); totalwritten = 0; fp = fp } in
    let towrite = min (length contents) (32 - offset) in
    let e = ll_get_directory_entry w fp.basename fp.did finder_info_bit finder_info_bit w.junk v in
    let fp' = record fp { finderinfo = write_at offset (take towrite contents) fp.finderinfo } in
    let set =
      request w (set_file_dir_parms e.1.volid fp.did finder_info_bit fp.basename (parms_of fp'))
        e.1 in
    let written : Writing = elim set.0.code [
      | access_denied ↦ record kept { ret = returned (fail eacces); fp = fp' }
      | object_not_found ↦ record kept { ret = returned (fail enoent); fp = fp' }
      | _ ↦ record kept { totalwritten = towrite; fp = fp' }
    ] in
    if leb 32 offset
    then (record kept { ret = returned (fail einval) }, v)
    else if is_no_err e.0.0
    then (written, set.1)
    else (record kept { ret = code e.0.0 }, e.1)

-- The case AFP_META_COMMENT: the data is a text that ends in a 0.
unfoldable pub write_comment : World → FileInfo → (contents : Bytes) → M Writing
write_comment w fp contents v =
    let r = request w (add_comment v.dtrefnum fp.did fp.basename contents) v in
    let size = length contents in
    let written : Writing = record { ret = returned (fail eio); totalwritten = size; fp = fp } in
    (
      elim r.0.code [
        | no_err ↦ record written { ret = returned (val 1) }
        | access_denied ↦ record written { ret = returned (fail eacces) }
        | object_not_found ↦ record written { ret = returned (fail enoent) }
        | _ ↦ written
      ],
      r.1,
    )

unfoldable pub appledouble_write : World → FileInfo → (contents : Bytes) → (offset : ℕ) → M Writing
unfolding ll_write write_finderinfo write_comment
appledouble_write w fp contents offset v =
    let kept : Writing = record { ret = returned (val 0); totalwritten = 0; fp = fp } in
    let fork = ll_write w contents offset fp.forkid v in
    if fp.resource == 1
    then (record kept { ret = returned fork.0.0; totalwritten = fork.0.1 }, fork.1)
    else if fp.resource == 2
    then (record kept { ret = returned (fail ebadf) }, v)
    else if fp.resource == 3
    then write_finderinfo w fp contents offset v
    else if fp.resource == 4
    then write_comment w fp contents v
    else if fp.resource == 5
    then (record kept { ret = returned (fail eperm) }, v)
    else (kept, v)

-- The results of FPGetComment for the size of a comment.
unfoldable pub comment_size : Code → (contents : Bytes) → Result
comment_size no_err contents = returned (val (length contents))
comment_size access_denied contents = returned (fail eacces)
comment_size misc_err contents = returned (fail eio)
comment_size param_err contents = returned (fail eio)
comment_size item_not_found contents = returned (fail enoent)
comment_size object_not_found contents = returned (fail enoent)
comment_size c contents = code c

unfoldable pub get_comment_size : World → Bytes → (did : ℕ) → M Result
unfolding comment_size
get_comment_size w basename did v =
    let d = request w (open_dt v.volid) v in
    let opened = if v.dtrefnum == 0 then record d.1 { dtrefnum = d.0.number } else v in
    let r = request w (get_comment opened.dtrefnum did basename) opened in
    if (v.dtrefnum == 0) && not (is_no_err d.0.code)
    then (returned (fail eio), d.1)
    else (comment_size r.0.code r.0.contents, r.1)

-- 0700 as a directory; 0444 as a file.
abbrev dir_mode : ℕ
dir_mode = bit_or 448 s_ifdir

abbrev icon_mode : ℕ
icon_mode = bit_or s_ifreg 292

-- The case AFP_META_COMMENT. `st` is what `ll_getattr` has filled in.
unfoldable pub comment_attr : World → (newpath : Bytes) → Ret × Stat → M (Result × Stat)
unfolding get_dirid get_comment_size
comment_attr w newpath (fail e, st) v = ((returned (fail e), st), v)
comment_attr w newpath (val n, st) v =
    let at = get_dirid w newpath v in
    elim at.0 [
      | none ↦ ((returned (fail enoent), st), at.1)
      | some (did, basename) ↦
          let size = get_comment_size w basename did at.1 in
          let sized : Result × Stat = elim size.0 [
            | returned (val s) ↦
                (returned (val 1), record st { mode = bit_or st.mode s_ifreg; size = s })
            | returned (fail e) ↦ (returned (fail e), st)
            | code c ↦ (code c, st)
            | negative n ↦ (negative n, st)
          ] in
          (sized, size.1)
    ]

unfoldable pub appledouble_getattr : World → Bytes → Stat → M (Result × Stat)
unfolding extra_translate ll_getattr comment_attr
appledouble_getattr w path stbuf v =
    let t = extra_translate v path in
    let fork = ll_getattr w t.1 true v in
    let plain = ll_getattr w t.1 false v in
    let info = record plain.0.1 { mode = bit_or plain.0.1.mode s_ifreg; size = 32 } in
    elim t.0 [
      | no_meta ↦ ((returned (val 0), stbuf), v)
      | resource ↦ ((returned (val 1), fork.0.1), fork.1)
      | apple_double ↦ ((returned (val 1), record stbuf { mode = dir_mode }), v)
      | finder_info ↦ ((returned (val 1), info), plain.1)
      | comment ↦ comment_attr w t.1 plain.0 plain.1
      | server_icon ↦ ((returned (val 1), record stbuf { mode = icon_mode; size = 256 }), v)
    ]
