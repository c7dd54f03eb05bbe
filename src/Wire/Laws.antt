-- ===== src/Wire/Laws.antt =====
-- Reading back what the conversions of Wire wrote, before any further bytes.
use afpfs_ng.Common.{ℕ, ◌%◌, [], ◌∷◌, ◌++◌, some, Bytes, ◌≡◌, refl, arith, length, append-nil}
use afpfs_ng.Wire.{be16, be32, be64, u8, u16, u32, u64, bytes, rest_of, ◌>>=◌}

pub u8-cons : (a : ℕ) (rest : Bytes) → u8 (a ∷ rest) ≡ some (a, rest)
unfolding u8
u8-cons a rest = refl

pub u16-be16 : (n : ℕ) (rest : Bytes) → u16 (be16 n ++ rest) ≡ some (n % 65536, rest)
unfolding u16 be16
u16-be16 n rest = ground arith

pub u32-be32 : (n : ℕ) (rest : Bytes) → u32 (be32 n ++ rest) ≡ some (n % 4294967296, rest)
unfolding u32 be32
u32-be32 n rest = ground arith

pub u64-be64 : (n : ℕ) (rest : Bytes) → u64 (be64 n ++ rest) ≡ some (n % 18446744073709551616, rest)
unfolding u64 u32 be64 be32
u64-be64 n rest = ground arith

pub bytes-append : (xs rest : Bytes) → bytes (length xs) (xs ++ rest) ≡ some (xs, rest)
unfolding bytes
bytes-append [] rest = refl
bytes-append (x ∷ xs) rest = ground (arith, bytes-append xs rest)

pub rest_of_lem : (xs : Bytes) → rest_of xs ≡ some (xs, [])
unfolding rest_of
rest_of_lem xs = refl

pub length-be16 : (n : ℕ) → length (be16 n) ≡ 2
unfolding be16
length-be16 n = refl

pub length-be32 : (n : ℕ) → length (be32 n) ≡ 4
unfolding be32
length-be32 n = refl

pub length-be64 : (n : ℕ) → length (be64 n) ≡ 8
unfolding be64
length-be64 n = refl

-- The same at the end of the bytes.
pub u16-be16_end : (n : ℕ) → u16 (be16 n) ≡ some (n % 65536, [])
u16-be16_end n = rw append-nil at (u16-be16 n [])

pub u32-be32_end : (n : ℕ) → u32 (be32 n) ≡ some (n % 4294967296, [])
u32-be32_end n = rw append-nil at (u32-be32 n [])

pub u64-be64_end : (n : ℕ) → u64 (be64 n) ≡ some (n % 18446744073709551616, [])
u64-be64_end n = rw append-nil at (u64-be64 n [])

pub ruleset wire_laws = (
  ◌>>=◌, u8-cons, u16-be16, u32-be32, u64-be64, u16-be16_end, u32-be32_end, u64-be64_end,
  rest_of_lem,
)
