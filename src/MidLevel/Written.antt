-- ===== src/MidLevel/Written.antt =====
-- What `afp_ml_write` puts into a file.
use mathlib.Core.Path.{subst}
use afpfs_ng.Codepage.{convert_path_to_afp}
use afpfs_ng.Common.{
  ℕ, ◌+◌, ◌%◌, ◌≡◌, ◌<◌, ◌≤◌, ◌⊎◌, inl, inr, lt→ltb, refl, ap, sym, ◌∙◌, Bytes, false, ◌&&◌, ltb,
  ◌==◌, some, length, take, val, fail, arith,
}
use afpfs_ng.LowLevel.Locks.{has_ext}
use afpfs_ng.LowLevel.Stored.{offset_limit, Contents, put, stored, ll_write-stored}
use afpfs_ng.LowLevel.Transfer.{ll_write}
use afpfs_ng.MidLevel.Content.{int_of, write_fork, after_meta, write_file, afp_ml_write}
use afpfs_ng.Resource.Content.{Result, returned, appledouble_write}
use afpfs_ng.Volume.{Volume, World, FileInfo, volume_is_readonly}

int_of_small : (n : ℕ) → n < 2147483648 → int_of n ≡ returned (val n)
int_of_small n h =
    let e : n % 4294967296 ≡ n = omega (arith, h) in rw (e, lt→ltb n 2147483648 h) refl

size_allowed : (n k : ℕ) → k < 2147483648 → (ltb n 30 && ltb 4294967296 k) ≡ false
size_allowed n k h = ground arith

module _ (w : World) (fp : FileInfo) (contents : Bytes) (offset uid gid : ℕ) where
  appledouble_write-plain :
      (v : Volume)
      → fp.resource ≡ 0
      → appledouble_write w fp contents offset v
        ≡ (record { ret = returned (val 0); totalwritten = 0; fp = fp }, v)
  unfolding appledouble_write
  appledouble_write-plain v plain =
      let e1 : (fp.resource == 1) ≡ false = ground (arith, plain) in
      let e2 : (fp.resource == 2) ≡ false = ground (arith, plain) in
      let e3 : (fp.resource == 3) ≡ false = ground (arith, plain) in
      let e4 : (fp.resource == 4) ≡ false = ground (arith, plain) in
      let e5 : (fp.resource == 5) ≡ false = ground (arith, plain) in rw (e1, e2, e3, e4, e5) refl

  write_file-plain :
      (v : Volume)
      → fp.resource ≡ 0
      → write_file w fp contents offset uid gid v ≡ write_fork w fp contents offset uid gid v
  unfolding write_file
  write_file-plain v plain =
      ap (after_meta w contents offset uid gid) (appledouble_write-plain v plain)

  afp_ml_write-write_file :
      (path converted : Bytes) (v : Volume)
      → convert_path_to_afp v.path_encoding path ≡ some converted
      → volume_is_readonly v ≡ false
      → (ltb v.av_number 30 && ltb 4294967296 (length contents)) ≡ false
      → afp_ml_write w path contents offset fp uid gid v ≡ write_file w fp contents offset uid gid v
  unfolding afp_ml_write
  afp_ml_write-write_file path converted v conv writable small =
      rw (conv, afp_ml_write) (rw (small, writable) refl)

  write_fork-returns :
      (v : Volume)
      → 0 < v.tx_quantum
      → v.tx_quantum < 4294967296
      → offset + length contents ≤ offset_limit (has_ext v)
      → length contents < 2147483648
      → let r = write_fork w fp contents offset uid gid v in
        (r.0.ret ≡ returned (val r.0.totalwritten))
  unfolding write_fork
  write_fork-returns v q u below short =
      let lem = ll_write-stored w contents offset fp.forkid v (λ i. 0) 0 q u below in
      let n = (ll_write w contents offset fp.forkid v).0.1 in
      let small : n < 2147483648 = elim (lem.1) [
        | inl e ↦ omega (arith, e)
        | inr e ↦ omega (arith, e, short)
      ] in
      ap (λ x. elim x as (λ y. Result) [ fail e ↦ returned (fail e) | val k ↦ int_of n ]) lem.0
      ∙ int_of_small n small

write_fork-stored :
    (w : World) (fp : FileInfo) (contents : Bytes) (offset uid gid : ℕ) (v : Volume)
    (file : Contents) (i : ℕ)
    → 0 < v.tx_quantum
    → v.tx_quantum < 4294967296
    → offset + length contents ≤ offset_limit (has_ext v)
    → length contents < 2147483648
    → let r = write_fork w fp contents offset uid gid v in
      let n = r.0.totalwritten in
      (r.0.ret ≡ returned (val n))
      × ((n ≡ 0) ⊎ (n ≡ length contents))
      × (stored fp.forkid r.1.sent file i
          ≡ put offset (take n contents) (stored fp.forkid v.sent file) i)
unfolding write_fork
write_fork-stored w fp contents offset uid gid v file i q u below short =
    let lem = ll_write-stored w contents offset fp.forkid v file i q u below in
    (write_fork-returns w fp contents offset uid gid v q u below short, lem.1, lem.2)

-- A write to a file that is no metadata file returns the number of the bytes that it counts as
-- written, which are all of them or none, whatever the server answers; and the requests it has sent
-- put exactly these bytes at their offset in the fork and change nothing else of it. The path
-- converts, the volume can be written, the largest packet is from 1 to 2 ^ 32 - 1 bytes, and the
-- data is below 2 ^ 31 bytes and ends by the limit of offsets, which is 2 ^ 32 before AFP 3.0 and
-- else 2 ^ 63.
pub afp_ml_write-stored :
    (w : World) (fp : FileInfo) (contents : Bytes) (offset uid gid : ℕ) (path converted : Bytes)
    (v : Volume) (file : Contents) (i : ℕ)
    → fp.resource ≡ 0
    → convert_path_to_afp v.path_encoding path ≡ some converted
    → volume_is_readonly v ≡ false
    → 0 < v.tx_quantum
    → v.tx_quantum < 4294967296
    → offset + length contents ≤ offset_limit (has_ext v)
    → length contents < 2147483648
    → let r = afp_ml_write w path contents offset fp uid gid v in
      let n = r.0.totalwritten in
      (r.0.ret ≡ returned (val n))
      × ((n ≡ 0) ⊎ (n ≡ length contents))
      × (stored fp.forkid r.1.sent file i
          ≡ put offset (take n contents) (stored fp.forkid v.sent file) i)
afp_ml_write-stored w fp contents offset uid gid path converted v file i plain conv writable q u
      below short =
    let small : (ltb v.av_number 30 && ltb 4294967296 (length contents)) ≡ false =
      size_allowed v.av_number (length contents) short in
    let e =
      afp_ml_write-write_file w fp contents offset uid gid path converted v conv writable small
      ∙ write_file-plain w fp contents offset uid gid v plain in
    let forked = write_fork-stored w fp contents offset uid gid v file i q u below short in
    subst
      (λ r.
        (r.0.ret ≡ returned (val r.0.totalwritten))
        × ((r.0.totalwritten ≡ 0) ⊎ (r.0.totalwritten ≡ length contents))
        × (stored fp.forkid r.1.sent file i
            ≡ put offset (take r.0.totalwritten contents) (stored fp.forkid v.sent file) i))
      (sym e) forked
