-- ===== src/Common/Ints.antt =====
-- The C `int` results of the calls: a count or status, or a negated errno.
use Prim.Native.Nat.{ℕ}

-- The errno names that the calls return.
pub data Errno : Type 0 where
  eperm enoent eio ebadf eacces efault ebusy eexist enotdir eisdir einval emfile efbig : Errno
  enospc erofs enametoolong enosys enotempty eoverflow : Errno

-- `val n` is the value n, 0 or more; `fail e` is `-e`.
pub data Ret : Type 0 where
  val : ℕ → Ret
  fail : Errno → Ret
