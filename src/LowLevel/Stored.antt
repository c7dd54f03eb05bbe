-- ===== src/LowLevel/Stored.antt =====
-- What the requests of `ll_write` make of the fork, if the server carries them out in their order.
use mathlib.Core.Path.{subst}
use afpfs_ng.Common.{
  ℕ, zero, suc, ◌+◌, ◌%◌, ◌≤◌, ◌<◌, ◌≡◌, ◌⊎◌, inl, inr, refl, sym, ap, ◌∙◌, List, [], ◌∷◌, ◌++◌,
  Bytes, Bool, true, false, ltb, ◌==◌, ==_iff, if◌then◌else◌, if_both, length, take, drop,
  length-take, length-drop, take-append-drop, arith, Ret, val,
}
use afpfs_ng.LowLevel.Locks.{
  has_ext, range_call, lock, unlock, max_locktrycount, try_lock, is_refused, ll_handle_locking,
  ll_handle_unlocking,
}
use afpfs_ng.LowLevel.Transfer.{write_call, write_chunks, ll_write}
use afpfs_ng.Proto.Calls.{Call, write, write_ext}
use afpfs_ng.Proto.Codes.{is_no_err}
use afpfs_ng.Volume.{Volume, World, request}

-- A fork is its byte at each position; `put` replaces the bytes from a position on.
abbrev pub Contents : Type 0
Contents = ℕ → ℕ

unfoldable pub put : ℕ → Bytes → Contents → Contents
put at [] file i = file i
put at (x ∷ xs) file i = let later = put (at + 1) xs file i in if i == at then x else later

-- What a list of requests, the latest first, makes of the fork `forkid`.
unfoldable pub stored : ℕ → List Call → Contents → Contents
unfolding put
stored forkid [] file = file
stored forkid (write f o r x ∷ cs) file =
    let before = stored forkid cs file in if f == forkid then put o (take r x) before else before
stored forkid (write_ext f o r x ∷ cs) file =
    let before = stored forkid cs file in if f == forkid then put o (take r x) before else before
stored forkid (_ ∷ cs) file = stored forkid cs file

put_before : (at : ℕ) (xs : Bytes) (file : Contents) (i : ℕ) → i < at → put at xs file i ≡ file i
unfolding put
put_before at [] file i h = refl
put_before at (x ∷ xs) file i h = ground (arith, put_before (at + 1) xs file i)

put_ext : (at : ℕ) (xs : Bytes) (f g : Contents) (i : ℕ) → f i ≡ g i → put at xs f i ≡ put at xs g i
unfolding put
put_ext at [] f g i h = h
put_ext at (x ∷ xs) f g i h = ground (arith, put_ext (at + 1) xs f g i h)

put_at :
    (at k : ℕ) (xs : Bytes) (file : Contents) (i : ℕ) → k ≡ at → put k xs file i ≡ put at xs file i
put_at at k xs file i e = ap (λ n. put n xs file i) e

put-append :
    (at k : ℕ) (xs ys : Bytes) (file : Contents) (i : ℕ)
    → k ≡ at + length xs
    → put at (xs ++ ys) file i ≡ put k ys (put at xs file) i
unfolding put
put-append at k [] ys file i e = sym (
    put_at at k ys (put at [] file) i (omega (arith, e))
    ∙ put_ext at ys (put at [] file) file i refl)
put-append at k (x ∷ xs) ys file i e = ground (
  arith,
  put-append (at + 1) k xs ys file i,
  put_before k ys (put at (x ∷ xs) file) i,
  put_ext k ys (put at (x ∷ xs) file) (put (at + 1) xs file) i,
)

-- Where an offset must end: `off_t` has a sign, and before AFP 3.0 the requests have 32 bits.
abbrev pub offset_limit : Bool → ℕ
offset_limit ext = if ext then 9223372036854775808 else 4294967296

stored-write_call :
    (ext : Bool) (forkid at n : ℕ) (x : Bytes) (cs : List Call) (file : Contents)
    → at < offset_limit ext
    → n < 4294967296
    → stored forkid (write_call ext forkid at n x ∷ cs) file
      ≡ put at (take n x) (stored forkid cs file)
unfolding stored
stored-write_call true forkid at n x cs file h k =
    let e : at % 18446744073709551616 ≡ at = omega (arith, h) in
    let f : n % 18446744073709551616 ≡ n = omega (arith, k) in
    rw (e, f, (==_iff forkid forkid).1 refl) refl
stored-write_call false forkid at n x cs file h k =
    let e : at % 4294967296 ≡ at = omega (arith, h) in
    let f : n % 4294967296 ≡ n = omega (arith, k) in rw (e, f, (==_iff forkid forkid).1 refl) refl

stored-range_call :
    (ext : Bool) (flag forkid at n fork : ℕ) (cs : List Call) (file : Contents)
    → stored fork (range_call ext flag forkid at n ∷ cs) file ≡ stored fork cs file
unfolding stored
stored-range_call true flag forkid at n fork cs file = refl
stored-range_call false flag forkid at n fork cs file = refl

write_chunks_lem :
    (w : World) (fuel forkid at : ℕ) (x : Bytes) (written : ℕ) (v : Volume) (file : Contents)
    (i : ℕ)
    → length x ≤ fuel
    → 0 < v.tx_quantum
    → v.tx_quantum < 4294967296
    → at + length x ≤ offset_limit (has_ext v)
    → let r = write_chunks w fuel forkid at x written v in
      (r.0 ≡ written + length x)
      × (stored forkid r.1.sent file i ≡ put at x (stored forkid v.sent file) i)
unfolding write_chunks put
write_chunks_lem w zero forkid at [] written v file i enough q u below = (omega arith, refl)
write_chunks_lem w zero forkid at (x ∷ xs) written v file i enough q u below = absurd (omega arith)
write_chunks_lem w (suc fuel) forkid at [] written v file i enough q u below = (omega arith, refl)
write_chunks_lem w (suc fuel) forkid at (x ∷ xs) written v file i enough q u below =
    let left = length (x ∷ xs) in
    let n = if ltb left v.tx_quantum then left else v.tx_quantum in
    let bounds : (0 < n) × (n ≤ left) × (n ≤ v.tx_quantum) = ground arith in
    let call = write_call (has_ext v) forkid at n (x ∷ xs) in
    let before = stored forkid v.sent file in
    let rest =
      write_chunks_lem w fuel forkid (at + n) (drop n (x ∷ xs)) (written + n) (request w call v).1
        file i (omega (arith, length-drop n (x ∷ xs))) q u
        (omega (arith, below, bounds, length-drop n (x ∷ xs))) in
    (
      omega (arith, length-drop n (x ∷ xs), rest.0),
      rest.1
          ∙ (put_ext (at + n) (drop n (x ∷ xs)) _ (put at (take n (x ∷ xs)) before) i (
                ap (λ f. f i)
                  (stored-write_call (has_ext v) forkid at n (x ∷ xs) v.sent file
                    (omega (arith, below, bounds)) (omega (arith, u, bounds))))
              ∙ (sym (
                    put-append at (at + n) (take n (x ∷ xs)) (drop n (x ∷ xs)) before i
                      (omega (arith, length-take n (x ∷ xs))))
                  ∙ ap (λ d. put at d before i) (take-append-drop n (x ∷ xs)))),
    )

take-length : (x : Bytes) (n : ℕ) → n ≡ length x → take n x ≡ x
take-length [] zero e = refl
take-length [] (suc n) e = refl
take-length (y ∷ x) zero e = absurd (omega (arith, e))
take-length (y ∷ x) (suc n) e = ap (◌∷◌ y) (take-length x n (omega (arith, e)))

-- What the requests for locks keep.
abbrev pub OnlyLocks : Volume → Volume → Type 0
OnlyLocks v u =
    (u.tx_quantum ≡ v.tx_quantum)
    × (u.av_number ≡ v.av_number)
    × ((fork : ℕ) (file : Contents) → stored fork u.sent file ≡ stored fork v.sent file)

range_call-OnlyLocks :
    (w : World) (ext : Bool) (flag forkid at n : ℕ) (v : Volume)
    → OnlyLocks v (request w (range_call ext flag forkid at n) v).1
range_call-OnlyLocks w ext flag forkid at n v =
    (refl, refl, λ fork file. stored-range_call ext flag forkid at n fork v.sent file)

try_lock-OnlyLocks :
    (w : World) (left forkid at n : ℕ) (v : Volume) → OnlyLocks v (try_lock w left forkid at n v).1
unfolding try_lock
try_lock-OnlyLocks w zero forkid at n v = (refl, refl, λ fork file. refl)
try_lock-OnlyLocks w (suc left) forkid at n v =
    let r = request w (range_call (has_ext v) lock forkid at n) v in
    let once = range_call-OnlyLocks w (has_ext v) lock forkid at n v in
    let again = try_lock-OnlyLocks w left forkid at n r.1 in
    let P : Bool × Volume → Type 0 = λ u. OnlyLocks v u.1 in
    if_both P (is_no_err r.0.code) _ _ once (
      if_both P (is_refused r.0.code) _ _
        (again.0 ∙ once.0, again.1 ∙ once.1, λ fork file. again.2 fork file ∙ once.2 fork file)
        once)

pub locking-OnlyLocks :
    (w : World) (forkid at n : ℕ) (v : Volume) → OnlyLocks v (ll_handle_locking w forkid at n v).1
unfolding ll_handle_locking
locking-OnlyLocks w forkid at n v =
    if_both (λ (u : Bool × Volume). OnlyLocks v u.1) v.extra_flags.no_locking _ _
      (refl, refl, λ fork file. refl) (try_lock-OnlyLocks w max_locktrycount forkid at n v)

unlocking-OnlyLocks :
    (w : World) (forkid at n : ℕ) (v : Volume) → OnlyLocks v (ll_handle_unlocking w forkid at n v).1
unfolding ll_handle_unlocking
unlocking-OnlyLocks w forkid at n v =
    if_both (λ (u : Bool × Volume). OnlyLocks v u.1) v.extra_flags.no_locking _ _
      (refl, refl, λ fork file. refl) (range_call-OnlyLocks w (has_ext v) unlock forkid at n v)

-- Where the largest packet is from 1 to 2 ^ 32 - 1 bytes and the bytes end by the limit of offsets
-- (2 ^ 32 before AFP 3.0, else 2 ^ 63), `ll_write` returns 0 whatever the server answers; it counts
-- all the bytes as written, or none where the lock fails; and the requests that it has sent, in
-- their order, put exactly the bytes that it counts at their offset in the fork and change nothing
-- else of it.
pub ll_write-stored :
    (w : World) (x : Bytes) (at forkid : ℕ) (v : Volume) (file : Contents) (i : ℕ)
    → 0 < v.tx_quantum
    → v.tx_quantum < 4294967296
    → at + length x ≤ offset_limit (has_ext v)
    → let r = ll_write w x at forkid v in
      (r.0.0 ≡ val 0)
      × ((r.0.1 ≡ 0) ⊎ (r.0.1 ≡ length x))
      × (stored forkid r.1.sent file i ≡ put at (take r.0.1 x) (stored forkid v.sent file) i)
unfolding ll_write put
ll_write-stored w x at forkid v file i q u below =
    let n = length x in
    let locked = ll_handle_locking w forkid at n v in
    let held = locking-OnlyLocks w forkid at n v in
    let all = write_chunks w n forkid at x 0 locked.1 in
    let body =
      write_chunks_lem w n forkid at x 0 locked.1 file i (omega arith) (omega (arith, q, held.0))
        (omega (arith, u, held.0))
        (subst (λ (av : ℕ). at + length x ≤ offset_limit (if ltb av 30 then false else true))
          (sym held.1) below) in
    let free = unlocking-OnlyLocks w forkid at n all.1 in
    let Q : (Ret × ℕ) × Volume → Type 0 = λ r.
      (r.0.0 ≡ val 0)
      × ((r.0.1 ≡ 0) ⊎ (r.0.1 ≡ length x))
      × (stored forkid r.1.sent file i ≡ put at (take r.0.1 x) (stored forkid v.sent file) i) in
    if_both Q locked.0 ((val 0, 0), locked.1)
      ((val 0, all.0), (ll_handle_unlocking w forkid at n all.1).1)
      (refl, inl refl, ap (λ f. f i) (held.2 forkid file))
      (
        refl,
        inr (omega (arith, body.0)),
        rw (free.2 forkid file, body.1, held.2 forkid file)
            (ap (λ d. put at d (stored forkid v.sent file) i)
              (sym (take-length x _ (omega (arith, body.0))))),
      )
