-- ===== src/LowLevel/Release.antt =====
-- The locks that `ll_read` takes.
use afpfs_ng.Common.{ℕ, ◌≡◌, refl, ◌∷◌, false}
use afpfs_ng.LowLevel.Locks.{
  has_ext, range_call, lock, unlock, try_lock, ll_handle_locking, ll_handle_unlocking,
}
use afpfs_ng.LowLevel.Transfer.{read_call, ll_read}
use afpfs_ng.Proto.Codes.{no_err}
use afpfs_ng.Volume.{Volume, World, request}

locking-granted :
    (w : World) (forkid at n : ℕ) (v : Volume)
    → v.extra_flags.no_locking ≡ false
    → (w.peer v.sent (range_call (has_ext v) lock forkid at n)).code ≡ no_err
    → ll_handle_locking w forkid at n v
      ≡ (false, (request w (range_call (has_ext v) lock forkid at n) v).1)
unfolding ll_handle_locking try_lock
locking-granted w forkid at n v on ok = rw (on, ok) refl

-- Where locking is on and the server grants the lock, `ll_read` makes three requests, whatever the
-- server answers to the others: the lock, the read, and the unlock of the range that was locked.
pub ll_read-unlocks :
    (w : World) (size at forkid : ℕ) (v : Volume)
    → v.extra_flags.no_locking ≡ false
    → (w.peer v.sent (range_call (has_ext v) lock forkid at size)).code ≡ no_err
    → (ll_read w size at forkid v).1.sent
      ≡ range_call (has_ext v) unlock forkid at size
        ∷ read_call (has_ext v) forkid at size
        ∷ range_call (has_ext v) lock forkid at size
        ∷ v.sent
unfolding ll_read ll_handle_unlocking
ll_read-unlocks w size at forkid v on ok =
    rw (locking-granted w forkid at size v on ok, ll_read, on) refl
