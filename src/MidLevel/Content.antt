-- ===== src/MidLevel/Content.antt =====
-- `afp_ml_read`, `afp_ml_write` and `afp_ml_getattr` of lib/midlevel.c.
use afpfs_ng.Codepage.{convert_path_to_afp}
use afpfs_ng.Common.{
  ℕ, ◌-◌, ◌%◌, Bytes, false, ◌&&◌, ltb, ◌==◌, none, some, if◌then◌else◌, length, Ret, val, fail,
  eacces, einval, efbig,
}
use afpfs_ng.Common.Memory.{write_at}
use afpfs_ng.LowLevel.Attr.{Stat, empty_stat, ll_getattr}
use afpfs_ng.LowLevel.Transfer.{ll_read, ll_write}
use afpfs_ng.Resource.Content.{
  Result, returned, code, negative, Reading, appledouble_read, Writing, appledouble_write,
  appledouble_getattr,
}
use afpfs_ng.Volume.{Volume, World, FileInfo, M, volume_is_readonly}
use afpfs_ng.Volume.Users.{translate_uidgid_to_server}

-- The fork of a file, or what is not read from elsewhere.
unfoldable pub read_fork : World → FileInfo → (buf : Bytes) → (offset : ℕ) → M Reading
unfolding ll_read write_at
read_fork w fp buf offset v =
    let r = ll_read w (length buf) offset fp.forkid v in
    (
      record {
        ret = returned r.0.0;
        buf = write_at 0 r.0.1 buf;
        amount_read = 0;
        eof = r.0.2;
        fp = fp;
      },
      r.1,
    )

-- A metadata file. A count other than 1 is not the end: the fork is read then.
unfoldable pub read_meta :
    World → (junk : Result) → FileInfo → (buf : Bytes) → (offset : ℕ) → M Reading
unfolding appledouble_read read_fork
read_meta w junk fp buf offset v =
    let a = appledouble_read w junk fp buf offset v in
    let on = read_fork w a.0.fp a.0.buf offset a.1 in
    elim a.0.ret [
      | code c ↦ a
      | negative n ↦ a
      | returned (fail e) ↦ a
      | returned (val n) ↦
          if n == 1 then (record a.0 { ret = returned (val a.0.amount_read) }, a.1) else on
    ]

unfoldable pub afp_ml_read :
    World → (junk : Result) → Bytes → (buf : Bytes) → (offset : ℕ) → FileInfo → M Reading
unfolding read_fork read_meta
afp_ml_read w junk path buf offset fp v = elim (convert_path_to_afp v.path_encoding path) [
  | none ↦
      (record { ret = returned (fail einval); buf = buf; amount_read = 0; eof = false; fp = fp }, v)
  | some converted_path ↦
      if fp.resource == 0 then read_fork w fp buf offset v else read_meta w junk fp buf offset v
]

-- AFP_MAX_AFP2_FILESIZE.
abbrev max_afp2_filesize : ℕ
max_afp2_filesize = 4294967296

-- The IDs stay as they are where there is no mapping.
unfoldable pub set_uidgid : Volume → FileInfo → (uid gid : ℕ) → FileInfo
unfolding translate_uidgid_to_server
set_uidgid v fp uid gid = elim (translate_uidgid_to_server v uid gid) [
  | some (newuid, newgid) ↦ record fp { uid = newuid; gid = newgid }
  | none ↦ record fp { uid = uid; gid = gid }
]

-- "Set the time and perms" in the struct, 0100644.
unfoldable pub stamped : World → Volume → FileInfo → (uid gid : ℕ) → FileInfo
unfolding set_uidgid
stamped w v fp uid gid =
    let owned = record (set_uidgid v fp uid gid) { permissions = 33188 } in
    record (if v.extra_flags.vol_supports_unix then owned else fp) {
      modification_date = w.now v.sent;
    }

-- What `return totalwritten` gives, an `int` of 32 bits.
abbrev pub int_of : ℕ → Result
int_of n =
    let low = n % 4294967296 in
    if ltb low 2147483648 then returned (val low) else negative (4294967296 - low)

-- The data goes to the fork.
unfoldable pub write_fork : World → FileInfo → (contents : Bytes) → (offset uid gid : ℕ) → M Writing
unfolding stamped ll_write
write_fork w fp contents offset uid gid v =
    let r = ll_write w contents offset fp.forkid v in
    let ret : Result = elim r.0.0 [ fail e ↦ returned (fail e) | val n ↦ int_of r.0.1 ] in
    (record { ret = ret; totalwritten = r.0.1; fp = stamped w v fp uid gid }, r.1)

-- What `appledouble_write` has done; the fork is written too where its result is not 1.
unfoldable pub after_meta :
    World → (contents : Bytes) → (offset uid gid : ℕ) → Writing × Volume → Writing × Volume
unfolding write_fork
after_meta w contents offset uid gid a =
    let on = write_fork w a.0.fp contents offset uid gid a.1 in
    elim a.0.ret [
      | code c ↦ a
      | negative n ↦ a
      | returned (fail e) ↦ a
      | returned (val n) ↦
          if n == 1 then (record a.0 { ret = int_of a.0.totalwritten }, a.1) else on
    ]

-- Behind the tests.
unfoldable pub write_file : World → FileInfo → (contents : Bytes) → (offset uid gid : ℕ) → M Writing
unfolding appledouble_write after_meta
write_file w fp contents offset uid gid v =
    after_meta w contents offset uid gid (appledouble_write w fp contents offset v)

unfoldable pub afp_ml_write :
    World → Bytes → (contents : Bytes) → (offset : ℕ) → FileInfo → (uid gid : ℕ) → M Writing
unfolding write_file
afp_ml_write w path contents offset fp uid gid v =
    let failed : Ret → Writing × Volume =
      λ r. (record { ret = returned r; totalwritten = 0; fp = fp }, v) in
    let converted : Writing × Volume = elim (convert_path_to_afp v.path_encoding path) [
      | none ↦ failed (fail einval)
      | some converted_path ↦
          if volume_is_readonly v
          then failed (fail eacces)
          else write_file w fp contents offset uid gid v
    ] in
    if ltb v.av_number 30 && ltb max_afp2_filesize (length contents)
    then failed (fail efbig)
    else converted

-- The path goes to `ll_getattr` as it was given.
unfoldable pub afp_ml_getattr : World → Bytes → M (Result × Stat)
unfolding appledouble_getattr ll_getattr
afp_ml_getattr w path v = elim (convert_path_to_afp v.path_encoding path) [
  | none ↦ ((returned (fail einval), empty_stat), v)
  | some converted_path ↦
      let a = appledouble_getattr w converted_path empty_stat v in
      let plain = ll_getattr w path false a.1 in
      elim a.0.0 [
        | code c ↦ a
        | negative n ↦ a
        | returned (fail e) ↦ a
        | returned (val n) ↦
            if n == 0
            then ((returned plain.0.0, plain.0.1), plain.1)
            else ((returned (val 0), a.0.1), a.1)
      ]
]
