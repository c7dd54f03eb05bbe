-- ===== src/Url.antt =====
-- lib/afp_url.c: the texts of a URL; Url/Parse has `afp_parse_url`. A pointer into a text is a
-- split of it. What the url holds after a failure is not kept.
pub mod Parse
pub mod Scan
pub mod Fields
pub mod RoundTrip
pub mod Stuck
use afpfs_ng.Common.{
  ℕ, zero, suc, ◌+◌, ◌-◌, ◌*◌, [], ◌∷◌, ◌++◌, Bytes, Bool, true, false, not, ◌&&◌, ◌||◌, ltb, leb,
  ◌==◌, Option, none, some, if◌then◌else◌, length, take, drop,
}
use afpfs_ng.Did.Cache.{str_eq}
use afpfs_ng.Resource.Translate.{strstr}

-- The fields that are parsed.
pub record Url : Type 0 where
  pub username : Bytes
  pub uamname : Bytes
  pub password : Bytes
  pub servername : Bytes
  pub port : ℕ
  pub volumename : Bytes
  pub path : Bytes

-- What the C library does and the stack holds: `snprintf(d,strlen(s)+1,s)` with the text as its
-- format, whether `errno` is set before a port is checked, and what `firstpart` holds when nothing
-- is scanned.
pub record Libc : Type 0 where
  pub format : Bytes → Bytes
  pub errno : Bool
  pub firstpart : Bytes

-- A result, -1, or a call that does not return or leaves its buffers.
pub data Parsed (A : Type 0) : Type 0 where
  ok : A → Parsed A
  bad lost : Parsed A

infixl 5 ◌>>=◌
abbrev pub ◌>>=◌ : {A B : Type 0} → Parsed A → (A → Parsed B) → Parsed B
ok a >>= f = f a
bad >>= f = bad
lost >>= f = lost

-- `strchr`: what stands before the first `c`, and after it.
unfoldable pub strchr : (c : ℕ) → Bytes → Option (Bytes × Bytes)
strchr c [] = none
strchr c (x ∷ xs) =
    let later : Option (Bytes × Bytes) = elim (strchr c xs) [
      | none ↦ none
      | some (before, after) ↦ some (x ∷ before, after)
    ] in
    if x == c then some ([], xs) else later

-- `strrchr`, by the last `c`.
unfoldable pub strrchr : (c : ℕ) → Bytes → Option (Bytes × Bytes)
strrchr c [] = none
strrchr c (x ∷ xs) = elim (strrchr c xs) [
  | some (before, after) ↦ some (x ∷ before, after)
  | none ↦ if x == c then some ([], xs) else none
]

abbrev behind : Bytes → Option (Bytes × Bytes) → Option (Bytes × Bytes)
behind xs none = none
behind xs (some (before, after)) = some (xs ++ before, after)

-- `escape_strchr(s,c,toescape)` where `c` is to be escaped: the first `c` that no other follows;
-- two of them are passed over.
unfoldable pub escape_strchr : (c : ℕ) → Bytes → Option (Bytes × Bytes)
escape_strchr c [] = none
escape_strchr c (x ∷ []) = if x == c then some ([], []) else none
escape_strchr c (x ∷ y ∷ s) =
    let pair = behind (x ∷ y ∷ []) (escape_strchr c s) in
    let on = behind (x ∷ []) (escape_strchr c (y ∷ s)) in
    if x == c then (if y == c then pair else some ([], y ∷ s)) else on

abbrev pub ends_with : (c : ℕ) → Bytes → Bool
ends_with c [] = false
ends_with c (x ∷ []) = x == c
ends_with c (x ∷ y ∷ s) = ends_with c (y ∷ s)

abbrev founds : Bytes → Option (Option (Bytes × Bytes)) → Option (Option (Bytes × Bytes))
founds xs none = none
founds xs (some o) = some (behind xs o)

-- `escape_strrchr`: where another `c` stands before the last one, it looks again from two bytes
-- before it to the end. `none` is a call that goes on after its fuel, or looks before the text.
unfoldable pub escape_strrchr : (fuel c : ℕ) → Bytes → Option (Option (Bytes × Bytes))
unfolding strrchr
escape_strrchr zero c s = none
escape_strrchr (suc fuel) c s = elim (strrchr c s) [
  | none ↦ some none
  | some (before, after) ↦ elim (ends_with c before) [
    | false ↦ some (some (before, after))
    | true ↦ elim (ltb (length before) 2) [
      | true ↦ none
      | false ↦
          founds (take (length before - 2) s) (escape_strrchr fuel c (drop (length before - 2) s))
    ]
  ]
]

-- After a `c` the next one is dropped, also if it does not follow at once.
unfoldable pub escape_string : (c : ℕ) → (inescape : Bool) → Bytes → Bytes
escape_string c inescape [] = []
escape_string c inescape (d ∷ s) =
    let dropped = escape_string c false s in
    let kept = d ∷ escape_string c (inescape || (d == c)) s in
    if inescape && (d == c) then dropped else kept

unfoldable pub escape_url : Url → Url
unfolding escape_string
escape_url url = record url {
  password = escape_string b'@' false url.password;
  username = escape_string b':' false url.username;
}

-- `isspace`, and the number that the digits at the front make.
abbrev is_space : ℕ → Bool
is_space c = (c == 32) || (leb 9 c && leb c 13)

abbrev pub is_digit : ℕ → Bool
is_digit c = leb b'0' c && leb c b'9'

unfoldable pub digits_from : (n : ℕ) → Bytes → ℕ
digits_from n [] = n
digits_from n (c ∷ s) =
    let more = digits_from (n * 10 + (c - b'0')) s in if is_digit c then more else n

abbrev signed : Bytes → Bool × ℕ
signed [] = (false, 0)
signed (c ∷ s) =
    if c == b'-'
    then (true, digits_from 0 s)
    else if c == b'+'
    then (false, digits_from 0 s)
    else (false, digits_from 0 (c ∷ s))

-- `strtol(s,NULL,10)` as a sign and a number, without its limit.
unfoldable pub strtol : Bytes → Bool × ℕ
unfolding digits_from
strtol [] = (false, 0)
strtol (c ∷ s) = let later = strtol s in if is_space c then later else signed (c ∷ s)

-- 0 is true.
unfoldable pub check_port : Libc → Bytes → Bool
unfolding strtol
check_port libc port =
    let n = strtol port in not ((n.0 && ltb 0 n.1) || ltb 32767 n.1) && not libc.errno

abbrev pub contains : (c : ℕ) → Bytes → Bool
contains c [] = false
contains c (x ∷ xs) = (x == c) || contains c xs

unfoldable pub check_servername : Bytes → Bool
check_servername name = not (contains b':' name) && not (contains b'/' name)

unfoldable pub check_uamname : Bytes → Bool
check_uamname [] = true
check_uamname (c ∷ s) = ((c == 32) || (leb b'A' c && leb c b'z')) && check_uamname s
