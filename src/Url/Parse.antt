-- ===== src/Url/Parse.antt =====
-- `afp_parse_url` and `afp_url_validate` of lib/afp_url.c.
use afpfs_ng.Common.{
  ℕ, ◌-◌, [], ◌∷◌, Bytes, Bool, false, not, ◌&&◌, ◌||◌, ◌==◌, ltb, Option, none, some,
  if◌then◌else◌, length, drop,
}
use afpfs_ng.Did.Cache.{str_eq}
use afpfs_ng.Resource.Translate.{strstr}
use afpfs_ng.Url.{
  Url, Libc, Parsed, ok, bad, lost, ◌>>=◌, strchr, escape_strchr, escape_strrchr, escape_url,
  strtol, check_port, check_servername, check_uamname,
}

unfoldable pub afp_default_url : Url
afp_default_url = record {
  username = [];
  uamname = [];
  password = [];
  servername = [];
  port = 548;
  volumename = [];
  path = [];
}

-- "://" and "afp"
abbrev pub colon_slashes : Bytes
colon_slashes = b':' ∷ b'/' ∷ b'/' ∷ []

abbrev pub afp : Bytes
afp = b'a' ∷ b'f' ∷ b'p' ∷ []

-- ";AUTH="
abbrev pub auth : Bytes
auth = b';' ∷ b'A' ∷ b'U' ∷ b'T' ∷ b'H' ∷ b'=' ∷ []

-- What follows the first "://", which has "afp" before it. With fewer than three bytes before it
-- the source reads in front of the text; here this is a failure.
unfoldable pub scheme : Bytes → Parsed Bytes
unfolding strstr str_eq
scheme toparse = elim (strstr colon_slashes toparse) [
  | none ↦ bad
  | some (before, after) ↦ if str_eq (drop (length before - 3) before) afp then ok after else bad
]

-- "%[^c]", which takes one byte at least: what it takes, and what is left.
unfoldable pub until : (c : ℕ) → Bytes → Bytes × Bytes
until c [] = ([], [])
until c (x ∷ xs) = let r = until c xs in if x == c then ([], x ∷ xs) else (x ∷ r.0, r.1)

-- What `sscanf` with "%[^/]/%[^$]" stores from `p`, with `none` for a second part that is skipped.
abbrev some_bytes : Bytes → Option Bytes
some_bytes [] = none
some_bytes (c ∷ cs) = some (c ∷ cs)

unfoldable pub stored : (junk : Bytes) → Bytes × Bytes → Bytes × Option Bytes
unfolding until
stored junk ([], rest) = (junk, none)
stored junk (c ∷ cs, rest) = (c ∷ cs, some_bytes (until b'$' (drop 1 rest)).0)

unfoldable pub halves : (junk : Bytes) → Bytes → Bytes × Option Bytes
unfolding stored
halves junk p = stored junk (until b'/' p)

-- The name of the server and its port, from what follows the '@'.
unfoldable pub server_part : Libc → Url → Bytes → Parsed Url
unfolding strchr strtol check_port check_servername
server_part libc url p =
    let named = λ (u : Url) (name : Bytes).
      (if check_servername (libc.format name)
        then ok (record u { servername = libc.format name })
        else bad) in
    elim (strchr b':' p) [
      | none ↦ named url p
      | some (name, port) ↦
          if not (check_port libc port) || ((strtol port).1 == 0)
          then bad
          else named (record url { port = (strtol port).1 }) name
    ]

-- `user[;AUTH=uamname]`
unfoldable pub user_part : Libc → Url → Bytes → Parsed Url
unfolding strstr check_uamname
user_part libc url p =
    let named = λ (u : Url) (user : Bytes). elim user as (λ x. Url) [
      | [] ↦ u
      | c ∷ cs ↦ record u { username = libc.format user }
    ] in
    elim (strstr auth p) [
      | none ↦ ok (named url p)
      | some (user, uam) ↦
          if check_uamname (libc.format uam)
          then ok (named (record url { uamname = libc.format uam }) user)
          else bad
    ]

-- `user[;AUTH=uamname][:password]`
unfoldable pub earliest_part : Libc → (fuel : ℕ) → Url → Bytes → Parsed Url
unfolding escape_strrchr user_part
earliest_part libc fuel url p = elim (escape_strrchr fuel b':' p) [
  | none ↦ lost
  | some none ↦ user_part libc url p
  | some (some (first, password)) ↦
      user_part libc (record url { password = libc.format password }) first
]

-- The volume and the path, which gets its slash again.
unfoldable pub second_part : Libc → Url → Option Bytes → Url
unfolding strchr
second_part libc url none = url
second_part libc url (some p) = elim (strchr b'/' p) [
  | none ↦ record url { volumename = libc.format p }
  | some (volume, path) ↦ record url {
    volumename = libc.format volume;
    path = b'/' ∷ libc.format path;
  }
]

abbrev pub emptied : Url → Url
emptied url = record url {
  username = [];
  servername = [];
  uamname = [];
  password = [];
  volumename = [];
  path = [];
}

unfoldable pub parse_first : Libc → (fuel : ℕ) → Url → Bytes → Parsed Url
unfolding escape_strchr server_part earliest_part
parse_first libc fuel url firstpart = elim (escape_strchr b'@' firstpart) [
  | none ↦ server_part libc url firstpart
  | some (early, server) ↦ server_part libc url server >>= λ u. earliest_part libc fuel u early
]

-- The parts fit `firstpart[255]` and `secondpart[2048]`, with their 0.
unfoldable pub fits_parts : Bytes × Option Bytes → Bool
fits_parts (first, none) = ltb (length first) 255
fits_parts (first, some second) = ltb (length first) 255 && ltb (length second) 2048

-- The fields fit the arrays of `struct afp_url`.
unfoldable pub fits_url : Url → Bool
fits_url u =
    ltb (length u.username) 255
    && ltb (length u.uamname) 50
    && ltb (length u.password) 255
    && ltb (length u.servername) 255
    && ltb (length u.volumename) 255
    && ltb (length u.path) 768

-- Fields that do not fit are `lost`, here when all of them have been copied.
unfoldable pub parse_parts : Libc → (fuel : ℕ) → Url → Bytes × Option Bytes → Parsed Url
unfolding parse_first second_part escape_url fits_url
parse_parts libc fuel url parts = parse_first libc fuel url parts.0 >>= λ parsed.
    let u = second_part libc parsed parts.1 in if fits_url u then ok (escape_url u) else lost

unfoldable pub afp_parse_url : Libc → (fuel : ℕ) → Url → Bytes → Parsed Url
unfolding scheme halves fits_parts parse_parts
afp_parse_url libc fuel url toparse = scheme toparse >>= λ p.
    let parts = halves libc.firstpart p in
    if fits_parts parts then parse_parts libc fuel (emptied url) parts else lost

-- 0 is true.
unfoldable pub afp_url_validate : Libc → (fuel : ℕ) → (new_url : Url) → Bytes → Url → Parsed Bool
unfolding afp_parse_url str_eq
afp_url_validate libc fuel new_url text valid = elim (afp_parse_url libc fuel new_url text) [
  | lost ↦ lost
  | bad ↦ ok false
  | ok url ↦ ok (
      str_eq url.username valid.username
      && str_eq url.uamname valid.uamname
      && str_eq url.password valid.password
      && str_eq url.servername valid.servername
      && str_eq url.volumename valid.volumename)
]
