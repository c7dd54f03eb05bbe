-- ===== src/Url/Stuck.antt =====
-- `afp_parse_url` on a user part whose last colon is doubled.
use afpfs_ng.Common.{
  ℕ, zero, suc, ◌+◌, ◌-◌, ◌≤◌, ◌≡◌, refl, ap, sym, ◌∙◌, [], ◌∷◌, ◌++◌, append_assoc, Bytes, true,
  ltb, none, some, length, length-append, drop, arith, Bool-cases, inl, inr,
}
use afpfs_ng.Url.{Url, Libc, lost, strrchr, ends_with, escape_strrchr}
use afpfs_ng.Url.Parse.{earliest_part}
use afpfs_ng.Url.Scan.{Free, strrchr-append}

ends_with-last : (c : ℕ) (xs : Bytes) → ends_with c (xs ++ (c ∷ [])) ≡ true
ends_with-last c [] = ground arith
ends_with-last c (x ∷ []) = ground arith
ends_with-last c (x ∷ y ∷ xs) = ends_with-last c (y ∷ xs)

drop_within : (n : ℕ) (xs ys : Bytes) → n ≤ length xs → drop n (xs ++ ys) ≡ drop n xs ++ ys
drop_within zero xs ys h = refl
drop_within (suc n) [] ys h = absurd (omega arith)
drop_within (suc n) (x ∷ xs) ys h = drop_within n xs ys (omega arith)

module _ (c : ℕ) (ys : Bytes) (free : Free c ys) where
  escape_strrchr-twice : (fuel : ℕ) (xs : Bytes) → escape_strrchr fuel c (xs ++ (c ∷ c ∷ ys)) ≡ none
  unfolding escape_strrchr
  escape_strrchr-twice zero xs = refl
  escape_strrchr-twice (suc fuel) xs =
      let found : strrchr c (xs ++ (c ∷ c ∷ ys)) ≡ some (xs ++ (c ∷ []), ys) =
        ap (strrchr c) (sym (append_assoc xs (c ∷ []) (c ∷ ys)))
        ∙ strrchr-append c (xs ++ (c ∷ [])) ys free in
      let n = length (xs ++ (c ∷ [])) - 2 in
      let size : length (xs ++ (c ∷ [])) ≡ length xs + 1 = length-append xs (c ∷ []) in
      let again : escape_strrchr fuel c (drop n (xs ++ (c ∷ c ∷ ys))) ≡ none =
        ap (escape_strrchr fuel c) (drop_within n xs (c ∷ c ∷ ys) (omega (arith, size)))
        ∙ escape_strrchr-twice fuel (drop n xs) in
      rw (found, escape_strrchr)
        (rw (ends_with-last c xs) (elim (Bool-cases (ltb (length (xs ++ (c ∷ []))) 2)) [
          | inl short ↦ rw short refl
          | inr long ↦ rw (long, again) refl
        ]))

-- The parser does not return, whatever its fuel, on "user[;AUTH=uamname][:password]" if the last
-- colon in it has another one before it: the search for it comes to the same place again, or looks
-- before the text.
pub earliest_part-twice :
    (libc : Libc) (fuel : ℕ) (url : Url) (xs ys : Bytes)
    → Free b':' ys
    → earliest_part libc fuel url (xs ++ (b':' ∷ b':' ∷ ys)) ≡ lost
unfolding earliest_part
earliest_part-twice libc fuel url xs ys free =
    rw (escape_strrchr-twice b':' ys free fuel xs, earliest_part) refl
