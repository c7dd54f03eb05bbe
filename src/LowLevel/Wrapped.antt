-- ===== src/LowLevel/Wrapped.antt =====
-- `ll_write` of lib/lowlevel.c before AFP 3.0, where the requests have offsets of 32 bits.
use afpfs_ng.Common.{
  ℕ, zero, suc, ◌+◌, ◌%◌, ◌<◌, ◌≡◌, refl, ap, ◌∙◌, [], ◌∷◌, Bytes, Bool, true, false, ltb, lt→ltb,
  arith, if◌then◌else◌, length, drop, Ret, val, not,
}
use afpfs_ng.LowLevel.Locks.{
  has_ext, range_call, lock, unlock, max_locktrycount, try_lock, is_refused, ll_handle_locking,
  ll_handle_unlocking,
}
use afpfs_ng.LowLevel.Stored.{locking-OnlyLocks}
use afpfs_ng.LowLevel.Transfer.{write_call, write_chunks, ll_write}
use afpfs_ng.Proto.Calls.{Call}
use afpfs_ng.Proto.Codes.{is_no_err}
use afpfs_ng.Volume.{Volume, World, request}

-- 4 GB.
abbrev pub four_gb : ℕ
four_gb = 4294967296

wrapped : (at : ℕ) → (at + four_gb) % 4294967296 ≡ at % 4294967296
wrapped at = omega arith

write_call-wrapped :
    (ext : Bool) (forkid at n : ℕ) (x : Bytes)
    → ext ≡ false
    → write_call ext forkid (at + four_gb) n x ≡ write_call ext forkid at n x
write_call-wrapped true forkid at n x e = cc
write_call-wrapped false forkid at n x e = rw (wrapped at) refl

range_call-wrapped :
    (ext : Bool) (flag forkid at n : ℕ)
    → ext ≡ false
    → range_call ext flag forkid (at + four_gb) n ≡ range_call ext flag forkid at n
range_call-wrapped true flag forkid at n e = cc
range_call-wrapped false flag forkid at n e = rw (wrapped at) refl

try_lock-wrapped :
    (w : World) (left forkid at n : ℕ) (v : Volume)
    → has_ext v ≡ false
    → try_lock w left forkid (at + four_gb) n v ≡ try_lock w left forkid at n v
unfolding try_lock
try_lock-wrapped w zero forkid at n v old = refl
try_lock-wrapped w (suc left) forkid at n v old =
    let round : Call → Bool × Volume → Bool × Volume = λ c again.
      (let r = request w c v in
        if is_no_err r.0.code
        then (false, r.1)
        else if is_refused r.0.code
        then again
        else (true, r.1)) in
    let call = range_call (has_ext v) lock forkid at n in
    ap (λ c. round c (try_lock w left forkid (at + four_gb) n (request w c v).1))
      (range_call-wrapped (has_ext v) lock forkid at n old)
    ∙ ap (round call) (try_lock-wrapped w left forkid at n (request w call v).1 old)

locking-wrapped :
    (w : World) (forkid at n : ℕ) (v : Volume)
    → has_ext v ≡ false
    → ll_handle_locking w forkid (at + four_gb) n v ≡ ll_handle_locking w forkid at n v
unfolding ll_handle_locking
locking-wrapped w forkid at n v old =
    ap (λ (done : Bool × Volume). if v.extra_flags.no_locking then (false, v) else done)
      (try_lock-wrapped w max_locktrycount forkid at n v old)

unlocking-wrapped :
    (w : World) (forkid at n : ℕ) (v : Volume)
    → has_ext v ≡ false
    → ll_handle_unlocking w forkid (at + four_gb) n v ≡ ll_handle_unlocking w forkid at n v
unfolding ll_handle_unlocking
unlocking-wrapped w forkid at n v old =
    ap
      (λ c.
        let r = request w c v in
        if v.extra_flags.no_locking then (false, v) else (not (is_no_err r.0.code), r.1))
      (range_call-wrapped (has_ext v) unlock forkid at n old)

write_chunks-av_number :
    (w : World) (fuel forkid at : ℕ) (x : Bytes) (written : ℕ) (v : Volume)
    → (write_chunks w fuel forkid at x written v).1.av_number ≡ v.av_number
unfolding write_chunks
write_chunks-av_number w zero forkid at x written v = refl
write_chunks-av_number w (suc fuel) forkid at [] written v = refl
write_chunks-av_number w (suc fuel) forkid at (x ∷ xs) written v =
    write_chunks-av_number w fuel forkid _ _ _ _

write_chunks-wrapped :
    (w : World) (fuel forkid at : ℕ) (x : Bytes) (written : ℕ) (v : Volume)
    → has_ext v ≡ false
    → write_chunks w fuel forkid (at + four_gb) x written v
      ≡ write_chunks w fuel forkid at x written v
unfolding write_chunks
write_chunks-wrapped w zero forkid at x written v old = refl
write_chunks-wrapped w (suc fuel) forkid at [] written v old = refl
write_chunks-wrapped w (suc fuel) forkid at (x ∷ xs) written v old =
    let left = length (x ∷ xs) in
    let n = if ltb left v.tx_quantum then left else v.tx_quantum in
    let call = write_call (has_ext v) forkid at n (x ∷ xs) in
    let further : at + four_gb + n ≡ at + n + four_gb = omega arith in
    ap
      (λ c.
        write_chunks w fuel forkid (at + four_gb + n) (drop n (x ∷ xs)) (written + n)
          (request w c v).1)
      (write_call-wrapped (has_ext v) forkid at n (x ∷ xs) old)
    ∙ ap (λ o. write_chunks w fuel forkid o (drop n (x ∷ xs)) (written + n) (request w call v).1)
        further
    ∙ write_chunks-wrapped w fuel forkid (at + n) (drop n (x ∷ xs)) (written + n)
        (request w call v).1 old

-- Before AFP 3.0 a write 4 GB behind an offset does what the write at the offset does, to the last
-- request: it locks and overwrites the bytes at the lower offset, with the same result.
pub ll_write-wrapped :
    (w : World) (x : Bytes) (at forkid : ℕ) (v : Volume)
    → v.av_number < 30
    → ll_write w x (at + four_gb) forkid v ≡ ll_write w x at forkid v
unfolding ll_write
ll_write-wrapped w x at forkid v before =
    let old : has_ext v ≡ false = rw (lt→ltb v.av_number 30 before) refl in
    let n = length x in
    let finish : Bool × Volume → ℕ × Volume → Bool × Volume → (Ret × ℕ) × Volume =
      λ locked all unlocked.
        (if locked.0 then ((val 0, 0), locked.1) else ((val 0, all.0), unlocked.1)) in
    let chunks = λ (o : ℕ) (u : Bool × Volume). write_chunks w n forkid o x 0 u.1 in
    let free = λ (o : ℕ) (all : ℕ × Volume). ll_handle_unlocking w forkid o n all.1 in
    let far = at + four_gb in
    let locked = ll_handle_locking w forkid at n v in
    let all = chunks at locked in
    let old_server =
      λ (av : ℕ) (e : av ≡ v.av_number). (ap (λ k. if ltb k 30 then false else true) e ∙ old) in
    let held = (locking-OnlyLocks w forkid at n v).1 in
    let kept = write_chunks-av_number w n forkid at x 0 locked.1 ∙ held in
    ap (λ l. finish l (chunks far l) (free far (chunks far l)))
      (locking-wrapped w forkid at n v old)
    ∙ ap (λ a. finish locked a (free far a))
        (write_chunks-wrapped w n forkid at x 0 locked.1 (old_server _ held))
    ∙ ap (finish locked all) (unlocking-wrapped w forkid at n all.1 (old_server _ kept))
