-- ===== src/Codepage/Compose.antt =====
-- What composition keeps, and how long a converted name may get.
use afpfs_ng.Common.{
  ℕ, ◌*◌, ◌%◌, ◌≤◌, ◌<◌, ◌≡◌, ◌≢◌, refl, List, [], ◌∷◌, ◌++◌, append_assoc, Bytes, Option, some,
  length, All, arith, Option-cases, inl, inr,
}
use afpfs_ng.Codepage.{combine, convert_utf8pre_to_utf8dec}

-- The full decomposition of a text, by that of each character.
abbrev pub decomposed : (ℕ → List ℕ) → List ℕ → List ℕ
decomposed expand [] = []
decomposed expand (c ∷ cs) = expand c ++ decomposed expand cs

-- The table of compositions is right: a composed character is one of 16 bits, and decomposes to
-- what its two parts do.
pub record IsCanonical (expand : ℕ → List ℕ) (precompose : ℕ → ℕ → Option ℕ) : Type 0 where
  pub parts : (p c q : ℕ) → precompose p c ≡ some q → expand q ≡ expand p ++ expand c
  pub fits : (p c q : ℕ) → precompose p c ≡ some q → (0 < q) × (q < 65536)

module _ (expand : ℕ → List ℕ) (precompose : ℕ → ℕ → Option ℕ)
    (canonical : IsCanonical expand precompose) where
  combine_from :
      (prev : ℕ) (cs : List ℕ)
      → 0 < prev
      → All (λ c. c ≢ 0) cs
      → decomposed expand (combine precompose prev cs) ≡ expand prev ++ decomposed expand cs
  unfolding combine
  combine_from prev [] pos h = ground arith
  combine_from prev (c ∷ cs) pos h = elim (Option-cases (precompose prev c)) [
    | inl e ↦ ground (arith, e, combine_from c cs)
    | inr (q, e) ↦
        let f = canonical.fits prev c q e in
        let m : q % 65536 ≡ q = omega (arith, f.0, f.1) in
        ground (
          arith,
          e,
          m,
          f.0,
          combine_from q cs f.0 h.1,
          canonical.parts prev c q e,
          append_assoc (expand prev) (expand c) (decomposed expand cs),
        )
  ]

  -- The loop of `convert_utf8dec_to_utf8pre` does not change the text: what it makes of characters
  -- that are not 0 has the same full decomposition, if the table of compositions is right.
  pub decomposed-combine :
      (cs : List ℕ)
      → All (λ c. c ≢ 0) cs
      → decomposed expand (combine precompose 0 cs) ≡ decomposed expand cs
  unfolding combine
  decomposed-combine [] h = refl
  decomposed-combine (c ∷ cs) h = combine_from c cs (ground (arith, h.0)) h.1

-- A name grows to one and a half of its length at most when it is converted for AFP.
pub length-convert_utf8pre_to_utf8dec :
    (src : Bytes) → 2 * length (convert_utf8pre_to_utf8dec src) ≤ 3 * length src
unfolding convert_utf8pre_to_utf8dec
length-convert_utf8pre_to_utf8dec [] = omega arith
length-convert_utf8pre_to_utf8dec (a ∷ []) = omega arith
length-convert_utf8pre_to_utf8dec (a ∷ b ∷ src) =
    ground
      (arith, length-convert_utf8pre_to_utf8dec src, length-convert_utf8pre_to_utf8dec (b ∷ src))
