-- ===== src/Wire.antt =====
-- Network byte order: `htons`, `htonl` and `hton64` (include/utils.h) of a little-endian host as
-- the bytes that they put in memory, and readers for the other direction.
pub mod Laws
use afpfs_ng.Common.{
  ℕ, zero, suc, ◌+◌, ◌*◌, ◌/◌, ◌%◌, ◌^◌, List, [], ◌∷◌, ◌++◌, Option, none, some, Bytes,
}

unfoldable pub be16 : ℕ → Bytes
be16 n = n / 256 % 256 ∷ n % 256 ∷ []

unfoldable pub be32 : ℕ → Bytes
be32 n = n / 16777216 % 256 ∷ n / 65536 % 256 ∷ n / 256 % 256 ∷ n % 256 ∷ []

-- The high word first, as `hton64` does.
unfoldable pub be64 : ℕ → Bytes
unfolding be32
be64 n = be32 (n / 2 ^ 32) ++ be32 n

-- A reader consumes bytes from the front.
abbrev pub Reader : Type 0 → Type 0
Reader A = Bytes → Option (A × Bytes)

infixl 5 ◌>>=◌
abbrev pub ◌>>=◌ : {A B : Type 0} → Reader A → (A → Reader B) → Reader B
◌>>=◌ m f bs = elim (m bs) [ none ↦ none | some (a, rest) ↦ f a rest ]

abbrev pub pure : {A : Type 0} → A → Reader A
pure a bs = some (a, bs)

unfoldable pub u8 : Reader ℕ
u8 [] = none
u8 (a ∷ rest) = some (a, rest)

unfoldable pub u16 : Reader ℕ
u16 (a ∷ b ∷ rest) = some (a * 256 + b, rest)
u16 _ = none

unfoldable pub u32 : Reader ℕ
u32 (a ∷ b ∷ c ∷ d ∷ rest) = some (a * 16777216 + b * 65536 + c * 256 + d, rest)
u32 _ = none

unfoldable pub u64 : Reader ℕ
unfolding u32
u64 = do hi ← u32; lo ← u32; pure (hi * 4294967296 + lo)

-- The next `n` bytes.
unfoldable pub bytes : ℕ → Reader Bytes
bytes zero bs = some ([], bs)
bytes (suc n) [] = none
bytes (suc n) (b ∷ bs) = elim (bytes n bs) [ none ↦ none | some (xs, rest) ↦ some (b ∷ xs, rest) ]

unfoldable pub skip : ℕ → Reader (Unit {0})
unfolding bytes
skip n = do _ ← bytes n; pure tt

-- All that is left.
unfoldable pub rest_of : Reader Bytes
rest_of bs = some (bs, [])
