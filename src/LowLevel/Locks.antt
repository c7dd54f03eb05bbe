-- ===== src/LowLevel/Locks.antt =====
-- `ll_handle_locking` and `ll_handle_unlocking` of lib/lowlevel.c. `true` is the result -1.
use afpfs_ng.Common.{
  ℕ, zero, suc, ◌+◌, ◌%◌, ◌≡◌, refl, List, Bool, true, false, not, ltb, if◌then◌else◌, length,
  arith,
}
use afpfs_ng.Proto.Calls.{Call, byte_range_lock, byte_range_lock_ext}
use afpfs_ng.Proto.Codes.{Code, is_no_err, no_more_locks, lock_err}
use afpfs_ng.Volume.{Volume, World, M, request}

abbrev pub has_ext : Volume → Bool
has_ext v = if ltb v.av_number 30 then false else true

-- The flags ByteRangeLock_Lock and ByteRangeLock_Unlock.
abbrev pub lock : ℕ
lock = 0

abbrev pub unlock : ℕ
unlock = 1

-- The arguments of the functions for AFP 3.0 and on are `uint64_t`, those of the others `uint32_t`.
abbrev pub width : Bool → ℕ
width ext = if ext then 18446744073709551616 else 4294967296

abbrev pub range_call : Bool → (flag forkid offset size : ℕ) → Call
range_call ext flag forkid offset size =
    if ext
    then byte_range_lock_ext flag forkid (offset % width ext) (size % width ext)
    else byte_range_lock flag forkid (offset % width ext) (size % width ext)

unfoldable pub ll_handle_unlocking : World → (forkid offset size : ℕ) → M Bool
ll_handle_unlocking w forkid offset size v =
    let r = request w (range_call (has_ext v) unlock forkid offset size) v in
    if v.extra_flags.no_locking then (false, v) else (not (is_no_err r.0.code), r.1)

-- The results after which the loop waits a second and asks again.
abbrev pub is_refused : Code → Bool
is_refused no_more_locks = true
is_refused lock_err = true
is_refused _ = false

-- The loop: `left` is how many of the MAX_LOCKTRYCOUNT rounds are left.
unfoldable pub try_lock : World → (left forkid offset size : ℕ) → M Bool
try_lock w zero forkid offset size v = (false, v)
try_lock w (suc left) forkid offset size v =
    let r = request w (range_call (has_ext v) lock forkid offset size) v in
    let again = try_lock w left forkid offset size r.1 in
    if is_no_err r.0.code then (false, r.1) else if is_refused r.0.code then again else (true, r.1)

abbrev pub max_locktrycount : ℕ
max_locktrycount = 10

unfoldable pub ll_handle_locking : World → (forkid offset size : ℕ) → M Bool
unfolding try_lock
ll_handle_locking w forkid offset size v =
    let done = try_lock w max_locktrycount forkid offset size v in
    if v.extra_flags.no_locking then (false, v) else done

-- A server that refuses every lock because the range is locked.
abbrev pub Refuses : World → Type 0
Refuses w =
    (sent : List Call) (ext : Bool) (forkid offset size : ℕ)
    → (w.peer sent (range_call ext lock forkid offset size)).code ≡ lock_err

try_lock-refused :
    (w : World) (left forkid offset size : ℕ) (v : Volume)
    → Refuses w
    → ((try_lock w left forkid offset size v).0 ≡ false)
      × (length (try_lock w left forkid offset size v).1.sent ≡ left + length v.sent)
unfolding try_lock
try_lock-refused w zero forkid offset size v h = (refl, omega arith)
try_lock-refused w (suc left) forkid offset size v h = ground (
  arith,
  h v.sent (has_ext v) forkid offset size,
  try_lock-refused w left forkid offset size
      (request w (range_call (has_ext v) lock forkid offset size) v).1 h,
)

-- Where locking is on and the server refuses every attempt because the range is locked,
-- `ll_handle_locking` asks 10 times and then reports success.
pub handle_locking-refused :
    (w : World) (forkid offset size : ℕ) (v : Volume)
    → v.extra_flags.no_locking ≡ false
    → Refuses w
    → ((ll_handle_locking w forkid offset size v).0 ≡ false)
      × (length (ll_handle_locking w forkid offset size v).1.sent ≡ 10 + length v.sent)
unfolding ll_handle_locking
handle_locking-refused w forkid offset size v on h =
    ground (arith, on, try_lock-refused w max_locktrycount forkid offset size v h)
