-- ===== src/Common/Memory.antt =====
-- Buffers as lists of bytes.
use Prim.Native.Nat.{ℕ, ◌+◌}
use mathlib.Core.List.{List, ◌++◌}
use afpfs_ng.Common.Lists.{length, take, drop}

-- Memory with `bs` written at an offset within it.
unfoldable pub write_at : (offset : ℕ) → (bs memory : List ℕ) → List ℕ
write_at offset bs memory = take offset memory ++ (bs ++ drop (offset + length bs) memory)
