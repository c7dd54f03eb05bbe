-- ===== src/Dsi/Turns.antt =====
-- Pieces of what is coming.
use afpfs_ng.Common.{
  ℕ, suc, ◌≤◌, ◌<◌, ◌≡◌, refl, ap, sym, ◌∙◌, List, [], ◌∷◌, ◌++◌, append_assoc, Bytes, some, length,
  take, drop, arith, take-append-drop, inl, inr, ◌⊎◌,
}
use afpfs_ng.Dsi.Receive.{fill}
use afpfs_ng.Dsi.Calls.{fill-piece}

pub length-positive : {A : Type 0} (xs : List A) → (xs ≡ []) ⊎ (0 < length xs)
length-positive [] = inl refl
length-positive (x ∷ xs) = inr (omega arith)

-- A short front piece of two parts is a piece of the first one.
pub front_piece :
    (got rest xs ys : Bytes)
    → got ++ rest ≡ xs ++ ys
    → length got ≤ length xs
    → (zs : Bytes) × (got ++ zs ≡ xs) × (rest ≡ zs ++ ys)
front_piece [] rest xs ys e le = (xs, refl, e)
front_piece (g ∷ gs) rest [] ys e le = elim le [ ]
front_piece (g ∷ gs) rest (x ∷ xs) ys e le =
    let (zs, split, more) = front_piece gs rest xs ys (ap (drop 1) e) (omega arith) in
    (zs, cc, more)

-- A turn takes a piece of what is coming from its front.
pub turn-piece :
    (n k x : ℕ) (xs : Bytes)
    → 0 < n
    → (c : ℕ) × (cs : Bytes) × (left : Bytes) × (fill n (some (take (suc k) (x ∷ xs)))
        ≡ some (c ∷ cs, left))
      × ((c ∷ cs) ++ (left ++ drop k xs) ≡ x ∷ xs)
      × (length (c ∷ cs) ≤ n)
turn-piece n k x xs pos =
    let (c, cs, read, split, bound) = fill-piece n x (take k xs) pos in
    let left = drop n (x ∷ take k xs) in
    (
      c,
      cs,
      left,
      read,
      sym (append_assoc (c ∷ cs) left (drop k xs))
          ∙ ap (λ front. front ++ drop k xs) split
          ∙ ap (◌∷◌ x) (take-append-drop k xs),
      bound,
    )
