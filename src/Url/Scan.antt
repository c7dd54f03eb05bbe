-- ===== src/Url/Scan.antt =====
-- The searches of lib/afp_url.c in a text whose parts are free of a byte.
use afpfs_ng.Common.{
  ℕ, suc, ◌+◌, ◌-◌, ◌*◌, ◌^◌, ◌<◌, ◌≡◌, ◌≢◌, refl, ap, sym, ◌∙◌, [], ◌∷◌, ◌++◌, Bytes, true, false,
  ◌==◌, none, some, if◌then◌else◌, length, All, arith,
}
use native.Mathlib.Omega.{pow_step}
use afpfs_ng.Resource.Names.{strip_prefix_lem}
use afpfs_ng.Resource.Translate.{strstr, strip_prefix}
use afpfs_ng.Url.{
  strchr, strrchr, escape_strchr, ends_with, escape_strrchr, escape_string, is_digit, digits_from,
  strtol, check_uamname, contains,
}
use afpfs_ng.Url.Parse.{until}

-- A text without a byte.
abbrev pub Free : ℕ → Bytes → Type 0
Free c s = All (λ d. d ≢ c) s

module _ (c : ℕ) where
  pub Free-append : (xs ys : Bytes) → Free c xs → Free c ys → Free c (xs ++ ys)
  Free-append [] ys h k = k
  Free-append (x ∷ xs) ys h k = (h.0, Free-append xs ys h.1 k)

  pub contains-Free : (xs : Bytes) → Free c xs → contains c xs ≡ false
  contains-Free [] h = refl
  contains-Free (x ∷ xs) h = ground (arith, contains-Free xs h.1)

  pub strchr-none : (xs : Bytes) → Free c xs → strchr c xs ≡ none
  unfolding strchr
  strchr-none [] h = refl
  strchr-none (x ∷ xs) h = ground (arith, strchr-none xs h.1)

  pub strchr-append : (xs ys : Bytes) → Free c xs → strchr c (xs ++ (c ∷ ys)) ≡ some (xs, ys)
  unfolding strchr
  strchr-append [] ys h = ground arith
  strchr-append (x ∷ xs) ys h = ground (arith, strchr-append xs ys h.1)

  pub strrchr-none : (xs : Bytes) → Free c xs → strrchr c xs ≡ none
  unfolding strrchr
  strrchr-none [] h = refl
  strrchr-none (x ∷ xs) h = ground (arith, strrchr-none xs h.1)

  pub strrchr-append : (xs ys : Bytes) → Free c ys → strrchr c (xs ++ (c ∷ ys)) ≡ some (xs, ys)
  unfolding strrchr
  strrchr-append [] ys h = ground (arith, strrchr-none ys h)
  strrchr-append (x ∷ xs) ys h = ground (arith, strrchr-append xs ys h)

  ends_with-Free : (xs : Bytes) → Free c xs → ends_with c xs ≡ false
  ends_with-Free [] h = refl
  ends_with-Free (x ∷ []) h = ground arith
  ends_with-Free (x ∷ y ∷ s) h = ends_with-Free (y ∷ s) h.1

  pub escape_strrchr-append :
      (fuel : ℕ) (xs ys : Bytes)
      → Free c xs
      → Free c ys
      → escape_strrchr (suc fuel) c (xs ++ (c ∷ ys)) ≡ some (some (xs, ys))
  unfolding escape_strrchr
  escape_strrchr-append fuel xs ys h k =
      rw (strrchr-append xs ys k, escape_strrchr) (rw (ends_with-Free xs h) refl)

  pub until-append : (xs ys : Bytes) → Free c xs → until c (xs ++ (c ∷ ys)) ≡ (xs, c ∷ ys)
  unfolding until
  until-append [] ys h = ground arith
  until-append (x ∷ xs) ys h = ground (arith, until-append xs ys h.1)

  pub until-all : (xs : Bytes) → Free c xs → until c xs ≡ (xs, [])
  unfolding until
  until-all [] h = refl
  until-all (x ∷ xs) h = ground (arith, until-all xs h.1)

  -- Every `c` written twice.
  abbrev pub doubled : Bytes → Bytes
  doubled [] = []
  doubled (x ∷ xs) = if x == c then x ∷ x ∷ doubled xs else x ∷ doubled xs

  pub escape_string-doubled : (s : Bytes) → escape_string c false (doubled s) ≡ s
  unfolding escape_string
  escape_string-doubled [] = refl
  escape_string-doubled (x ∷ xs) = ground (arith, escape_string-doubled xs)

  pub doubled-Free : (d : ℕ) (s : Bytes) → Free d s → Free d (doubled s)
  doubled-Free d [] h = tt
  doubled-Free d (x ∷ xs) h = ground (arith, doubled-Free d xs h.1)

  pub escape_string-Free : (s : Bytes) → Free c s → escape_string c false s ≡ s
  unfolding escape_string
  escape_string-Free [] h = refl
  escape_string-Free (x ∷ xs) h = ground (arith, escape_string-Free xs h.1)

  -- The end of a text that is written with `doubled`, behind one that is free of `c`.
  escape_strchr-doubled :
      (s : Bytes) (d : ℕ) (rest : Bytes)
      → d ≢ c
      → escape_strchr c (doubled s ++ (c ∷ d ∷ rest)) ≡ some (doubled s, d ∷ rest)
  unfolding escape_strchr
  escape_strchr-doubled [] d rest h = ground arith
  escape_strchr-doubled (x ∷ []) d rest h = ground arith
  escape_strchr-doubled (x ∷ y ∷ s) d rest h =
      ground (arith, escape_strchr-doubled (y ∷ s) d rest h)

  pub escape_strchr-append :
      (xs s : Bytes) (d : ℕ) (rest : Bytes)
      → Free c xs
      → d ≢ c
      → escape_strchr c (xs ++ (doubled s ++ (c ∷ d ∷ rest))) ≡ some (xs ++ doubled s, d ∷ rest)
  unfolding escape_strchr
  escape_strchr-append [] s d rest h k = escape_strchr-doubled s d rest k
  escape_strchr-append (x ∷ []) [] d rest h k = ground arith
  escape_strchr-append (x ∷ []) (y ∷ s) d rest h k =
      ground (arith, escape_strchr-doubled (y ∷ s) d rest k)
  escape_strchr-append (x ∷ y ∷ xs) s d rest h k =
      ground (arith, escape_strchr-append (y ∷ xs) s d rest h.1 k)

pub strstr-append :
    (p : ℕ) (ps xs ys : Bytes)
    → Free p xs
    → strstr (p ∷ ps) (xs ++ ((p ∷ ps) ++ ys)) ≡ some (xs, ys)
unfolding strstr strip_prefix
strstr-append p ps [] ys h = rw (strip_prefix_lem (p ∷ ps) ys, strstr) refl
strstr-append p ps (x ∷ xs) ys h = ground (arith, strstr-append p ps xs ys h.1)

-- The number that a text of digits stands for.
abbrev pub value : Bytes → ℕ
value [] = 0
value (d ∷ ds) = (d - b'0') * 10 ^ length ds + value ds

abbrev pub AreDigits : Bytes → Type 0
AreDigits s = All (λ d. is_digit d ≡ true) s

horner : (n d e r : ℕ) → (n * 10 + d) * e + r ≡ n * (10 * e) + (d * e + r)
horner n d e r = grind arith

digits_from-value :
    (n : ℕ) (ds : Bytes) → AreDigits ds → digits_from n ds ≡ n * 10 ^ length ds + value ds
unfolding digits_from
digits_from-value n [] h = omega arith
digits_from-value n (d ∷ ds) h =
    rw (h.0, digits_from)
      (digits_from-value (n * 10 + (d - b'0')) ds h.1
        ∙ (horner n (d - b'0') (10 ^ length ds) (value ds)
            ∙ ap (λ e. n * e + ((d - b'0') * 10 ^ length ds + value ds))
                (sym (pow_step 10 (length ds)))))

pub strtol-value : (ds : Bytes) → AreDigits ds → strtol ds ≡ (false, value ds)
unfolding strtol
strtol-value [] h = refl
strtol-value (d ∷ ds) h = ground (arith, digits_from-value 0 (d ∷ ds) h)

pub check_uamname-Free : (c : ℕ) (s : Bytes) → c ≢ 32 → c < 65 → check_uamname s ≡ true → Free c s
unfolding check_uamname
check_uamname-Free c [] ne lt h = tt
check_uamname-Free c (x ∷ xs) ne lt h = ground (arith, check_uamname-Free c xs ne lt)

pub digits-Free : (c : ℕ) (ds : Bytes) → is_digit c ≡ false → AreDigits ds → Free c ds
digits-Free c [] other h = tt
digits-Free c (x ∷ xs) other h = ground (arith, digits-Free c xs other h.1)
