-- ===== src/Dsi/Versions.antt =====
-- The versions that a server lists in its status.
use mathlib.Core.Path.{subst}
use afpfs_ng.Common.{
  ℕ, suc, ◌+◌, ◌%◌, ◌≤◌, ◌<◌, ◌≡◌, refl, ap, sym, ◌⊎◌, inl, inr, none, some, Option, if◌then◌else◌,
  Bool-cases, Option-cases, ◌∙◌, List, [], ◌∷◌, ◌++◌, append_assoc, Bytes, length, take, drop,
  drop-append, take-append, min, All, arith,
}
use afpfs_ng.Did.Cache.{str_eq}
use afpfs_ng.Did.Sound.{str_eq_iff}
use afpfs_ng.Dsi.Status.{
  c_string, with_version, version_named, next_name, versions_from, dsi_parse_versions,
}
use afpfs_ng.Names.{copy_from_pascal, copy_to_pascal}
use afpfs_ng.Names.Paths.{take_all}
use afpfs_ng.Server.{AfpVersion, afp_versions}

-- The names one after the other, as Pascal strings.
unfoldable pub name_list : List Bytes → Bytes
name_list [] = []
name_list (n ∷ ns) = copy_to_pascal n ++ name_list ns

-- The names that AFP gives its versions, and their numbers.
abbrev pub IsVersion : Bytes → ℕ → Type 0
IsVersion name k =
    ((name
        ≡ b'A' ∷ b'F' ∷ b'P' ∷ b'V' ∷ b'e' ∷ b'r' ∷ b's' ∷ b'i' ∷ b'o' ∷ b'n' ∷ 32 ∷ b'1' ∷ b'.'
          ∷ b'1' ∷ [])
      × (k ≡ 11))
    ⊎ (((name
            ≡ b'A' ∷ b'F' ∷ b'P' ∷ b'V' ∷ b'e' ∷ b'r' ∷ b's' ∷ b'i' ∷ b'o' ∷ b'n' ∷ 32 ∷ b'2' ∷ b'.'
              ∷ b'0' ∷ [])
          × (k ≡ 20))
        ⊎ (((name
                ≡ b'A' ∷ b'F' ∷ b'P' ∷ b'V' ∷ b'e' ∷ b'r' ∷ b's' ∷ b'i' ∷ b'o' ∷ b'n' ∷ 32 ∷ b'2'
                  ∷ b'.' ∷ b'1' ∷ [])
              × (k ≡ 21))
            ⊎ (((name ≡ b'A' ∷ b'F' ∷ b'P' ∷ b'2' ∷ b'.' ∷ b'2' ∷ []) × (k ≡ 22))
                ⊎ (((name ≡ b'A' ∷ b'F' ∷ b'P' ∷ b'X' ∷ b'0' ∷ b'3' ∷ []) × (k ≡ 30))
                    ⊎ (((name ≡ b'A' ∷ b'F' ∷ b'P' ∷ b'3' ∷ b'.' ∷ b'1' ∷ []) × (k ≡ 31))
                        ⊎ ((name ≡ b'A' ∷ b'F' ∷ b'P' ∷ b'3' ∷ b'.' ∷ b'2' ∷ []) × (k ≡ 32)))))))

-- The numbers of the names that name a version, in their order; a name ends at a 0.
pub data Numbers : List Bytes → List ℕ → Type 0 where
  at_end : Numbers [] []
  taken :
      {names : List Bytes} {ks : List ℕ} (name : Bytes) (k : ℕ)
      → IsVersion (c_string name) k
      → Numbers names ks
      → Numbers (name ∷ names) (k ∷ ks)
  passed :
      {names : List Bytes} {ks : List ℕ} (name : Bytes)
      → ((k : ℕ) → ¬ (IsVersion (c_string name) k))
      → Numbers names ks
      → Numbers (name ∷ names) ks

-- The same of any table.
IsListed : List AfpVersion → Bytes → ℕ → Type 0
IsListed [] name k = ⊥
IsListed (p ∷ []) name k = (name ≡ p.av_name) × (k ≡ p.av_number)
IsListed (p ∷ q ∷ ps) name k = ((name ≡ p.av_name) × (k ≡ p.av_number)) ⊎ IsListed (q ∷ ps) name k

-- The search of the table, for a text without a 0.
find : Bytes → List AfpVersion → Option ℕ
find s [] = none
find s (p ∷ ps) = let later = find s ps in if str_eq p.av_name s then some p.av_number else later

version_named-find :
    (name : Bytes) (ps : List AfpVersion) → version_named name ps ≡ find (c_string name) ps
unfolding version_named find
version_named-find name [] = refl
version_named-find name (p ∷ ps) =
    ap (λ later. if str_eq p.av_name (c_string name) then some p.av_number else later)
      (version_named-find name ps)

find-IsListed : (s : Bytes) (ps : List AfpVersion) (k : ℕ) → find s ps ≡ some k → IsListed ps s k
unfolding find IsListed
find-IsListed s [] k h = cc
find-IsListed s (p ∷ []) k h = ground (arith, str_eq_iff p.av_name s)
find-IsListed s (p ∷ q ∷ ps) k h = elim (Bool-cases (str_eq p.av_name s)) [
  | inl e ↦ inl (ground (arith, str_eq_iff p.av_name s))
  | inr e ↦ inr (find-IsListed s (q ∷ ps) k (rw e at h))
]

-- What the search of the table finds is a version.
version_named-IsVersion :
    (name : Bytes) (k : ℕ) → version_named name afp_versions ≡ some k → IsVersion (c_string name) k
unfolding IsListed
version_named-IsVersion name k h =
    find-IsListed (c_string name) afp_versions k (sym (version_named-find name afp_versions) ∙ h)

-- And every version is found.
IsVersion-find : (s : Bytes) (k : ℕ) → IsVersion s k → find s afp_versions ≡ some k
unfolding find str_eq
IsVersion-find s k (inl (e, n)) = rw (e, n) refl
IsVersion-find s k (inr (inl (e, n))) = rw (e, n) refl
IsVersion-find s k (inr (inr (inl (e, n)))) = rw (e, n) refl
IsVersion-find s k (inr (inr (inr (inl (e, n))))) = rw (e, n) refl
IsVersion-find s k (inr (inr (inr (inr (inl (e, n)))))) = rw (e, n) refl
IsVersion-find s k (inr (inr (inr (inr (inr (inl (e, n))))))) = rw (e, n) refl
IsVersion-find s k (inr (inr (inr (inr (inr (inr (e, n))))))) = rw (e, n) refl

-- The numbers of those that the client knows.
known : List Bytes → List ℕ
known [] = []
known (n ∷ ns) = with_version (version_named n afp_versions) (known ns)

known-Numbers : (names : List Bytes) → Numbers names (known names)
unfolding known
known-Numbers [] = at_end
known-Numbers (n ∷ ns) = elim (Option-cases (version_named n afp_versions)) [
  | inl e ↦ rw e (
      passed n
        (λ k v.
          let f = version_named-find n afp_versions ∙ IsVersion-find (c_string n) k v in
          absurd (cc (e, f)))
        (known-Numbers ns))
  | inr (k, e) ↦ rw e (taken n k (version_named-IsVersion n k e) (known-Numbers ns))
]

module _ (name rest : Bytes) (short : length name < 33) where
  copy_from_pascal-name : copy_from_pascal (copy_to_pascal name ++ rest) 33 ≡ (name, length name)
  unfolding copy_from_pascal copy_to_pascal
  copy_from_pascal-name =
      let e : length name % 256 ≡ length name = omega arith in
      rw (e, take_all name _ refl) (ground (arith, take-append name rest))

  drop_name : drop ((length name + 1) % 256) (copy_to_pascal name ++ rest) ≡ rest
  unfolding copy_to_pascal
  drop_name =
      let e : (length name + 1) % 256 ≡ suc (length name) = omega arith in
      let f : length name % 256 ≡ length name = omega arith in
      ap (λ k. drop k (copy_to_pascal name ++ rest)) e
      ∙ ap (λ k. drop (length name) (take k name ++ rest)) f
      ∙ ap (λ t. drop (length name) (t ++ rest)) (take_all name _ refl)
      ∙ drop-append name rest

  next_name-name : next_name 33 (copy_to_pascal name ++ rest) ≡ rest
  next_name-name =
      ap (λ r. drop ((r.1 + 1) % 256) (copy_to_pascal name ++ rest)) copy_from_pascal-name
      ∙ drop_name

versions_from-name_list :
    (names : List Bytes) (rest : Bytes)
    → All (λ n. length n < 33) names
    → versions_from (length names) (name_list names ++ rest) ≡ known names
unfolding versions_from name_list known
versions_from-name_list [] rest h = refl
versions_from-name_list (n ∷ ns) rest h =
    let behind = name_list ns ++ rest in
    let k = length ns in
    ap (versions_from (suc k)) (append_assoc (copy_to_pascal n) (name_list ns) rest)
    ∙ ap
        (λ c.
          with_version (version_named c.0 afp_versions)
            (versions_from k (next_name 33 (copy_to_pascal n ++ behind))))
        (copy_from_pascal-name n behind h.0)
    ∙ ap (λ p. with_version (version_named n afp_versions) (versions_from k p))
        (next_name-name n behind h.0)
    ∙ ap (with_version (version_named n afp_versions)) (versions_from-name_list ns rest h.1)

-- From the list of at most 10 versions that a server sends, each with a name of at most 32 bytes,
-- the client takes the numbers of those that name a version of AFP up to 3.2, in their order, and
-- passes over the others, whatever follows the list.
pub dsi_parse_versions-Numbers :
    (names : List Bytes) (rest : Bytes)
    → All (λ n. length n < 33) names
    → length names ≤ 10
    → Numbers names (dsi_parse_versions (length names ∷ (name_list names ++ rest)))
unfolding dsi_parse_versions
dsi_parse_versions-Numbers names rest short few =
    let e : min (length names) 10 ≡ length names = omega arith in
    subst (Numbers names)
      (sym (
        ap (λ n. versions_from n (name_list names ++ rest)) e
        ∙ versions_from-name_list names rest short))
      (known-Numbers names)
