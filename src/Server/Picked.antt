-- ===== src/Server/Picked.antt =====
-- Which version and which method the client settles on.
use afpfs_ng.Common.{
  ℕ, zero, suc, ◌^◌, ◌<◌, ◌≡◌, true, false, ◌==◌, Option, none, some, bit_and, arith, ==_iff,
  Bool-cases, inl, inr,
}
use afpfs_ng.Proto.Codes.{has}
use afpfs_ng.Server.{pick_below, pick_uam}

-- The highest bit below `n` that a number has, if it has one.
pub data IsHighest (n common : ℕ) : Option ℕ → Type 0 where
  found :
      (i : ℕ)
      → i < n
      → has common (2 ^ i) ≡ true
      → ((j : ℕ) → i < j → j < n → has common (2 ^ j) ≡ false)
      → IsHighest n common (some (2 ^ i))
  missing : ((j : ℕ) → j < n → has common (2 ^ j) ≡ false) → IsHighest n common none

above :
    (n common j : ℕ)
    → has common (2 ^ n) ≡ false
    → ((j < n) → has common (2 ^ j) ≡ false)
    → j < suc n
    → has common (2 ^ j) ≡ false
above n common j miss below h = elim (Bool-cases (j == n)) [
  | inl e ↦ rw ((==_iff j n).0 e) miss
  | inr ne ↦ below (ground arith)
]

IsHighest-next :
    (n common : ℕ) (r : Option ℕ)
    → has common (2 ^ n) ≡ false
    → IsHighest n common r
    → IsHighest (suc n) common r
IsHighest-next n common _ miss (found i lt h up) =
    found i (omega arith) h (λ j gt le. above n common j miss (up j gt) le)
IsHighest-next n common _ miss (missing all) = missing (λ j le. above n common j miss (all j) le)

pick_below-IsHighest : (n common : ℕ) → IsHighest n common (pick_below n common)
unfolding pick_below
pick_below-IsHighest zero common = missing (λ j h. absurd (omega arith))
pick_below-IsHighest (suc n) common = elim (Bool-cases (has common (2 ^ n))) [
  | inl e ↦ rw e (found n (omega arith) e (λ j gt lt. absurd (omega arith)))
  | inr e ↦ rw e (IsHighest-next n common (pick_below n common) e (pick_below-IsHighest n common))
]

-- `pick_uam` takes the highest of the 16 bits that both masks have, and -1 only if they share none
-- of them.
pub pick_uam-IsHighest : (uam2 uam1 : ℕ) → IsHighest 16 (bit_and uam2 uam1) (pick_uam uam2 uam1)
unfolding pick_uam
pick_uam-IsHighest uam2 uam1 = pick_below-IsHighest 16 (bit_and uam2 uam1)
