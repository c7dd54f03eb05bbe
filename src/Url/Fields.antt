-- ===== src/Url/Fields.antt =====
-- What `afp_parse_url` makes of the parts of a URL that is written in full.
use afpfs_ng.Common.{
  ◌<◌, ◌≤◌, ◌≡◌, refl, [], ◌∷◌, ◌++◌, Bytes, true, false, some, length, drop, arith,
}
use afpfs_ng.Did.Cache.{str_eq}
use afpfs_ng.Resource.Translate.{strstr, strip_prefix}
use afpfs_ng.Url.{Url, Libc, ok, check_port, check_servername, check_uamname}
use afpfs_ng.Url.Parse.{
  colon_slashes, afp, auth, scheme, until, stored, halves, server_part, user_part, second_part,
}
use afpfs_ng.Url.Scan.{
  Free, contains-Free, strchr-append, until-append, until-all, strstr-append, value, AreDigits,
  strtol-value, check_uamname-Free,
}

-- A format without conversions is printed as it is.
pub record IsLibc (libc : Libc) : Type 0 where
  pub plain : (s : Bytes) → Free b'%' s → libc.format s ≡ s
  pub no_error : libc.errno ≡ false

check_servername-Free : (s : Bytes) → Free b':' s → Free b'/' s → check_servername s ≡ true
unfolding check_servername
check_servername-Free s h k = rw (contains-Free b':' s h, contains-Free b'/' s k) refl

module _ (libc : Libc) (good : IsLibc libc) where
  pub server_part_lem :
      (url : Url) (name digits : Bytes)
      → Free b':' name
      → Free b'/' name
      → Free b'%' name
      → AreDigits digits
      → 0 < value digits
      → value digits ≤ 32767
      → server_part libc url (name ++ (b':' ∷ digits))
        ≡ ok (record url { port = value digits; servername = name })
  unfolding server_part check_port
  server_part_lem url name digits colon slash percent ds pos bound =
      rw (strchr-append b':' name digits colon, server_part)
        (rw
          (
            strtol-value digits ds,
            good.plain name percent,
            check_servername-Free name colon slash,
            good.no_error,
          )
          (ground arith))

  pub user_part_lem :
      (url : Url) (user uam : Bytes)
      → 0 < length user
      → Free b';' user
      → Free b'%' user
      → check_uamname uam ≡ true
      → user_part libc url (user ++ (auth ++ uam))
        ≡ ok (record url { uamname = uam; username = user })
  unfolding user_part
  user_part_lem url [] uam some_user semicolon percent h = elim some_user [ ]
  user_part_lem url (c ∷ cs) uam some_user semicolon percent h =
      let uam_percent = check_uamname-Free b'%' uam (omega arith) (omega arith) h in
      rw (strstr-append b';' (drop 1 auth) (c ∷ cs) uam semicolon, user_part)
        (rw (good.plain uam uam_percent, h, good.plain (c ∷ cs) percent) refl)

  pub second_part_lem :
      (url : Url) (volume path : Bytes)
      → Free b'/' volume
      → Free b'%' volume
      → Free b'%' path
      → second_part libc url (some (volume ++ (b'/' ∷ path)))
        ≡ record url { volumename = volume; path = b'/' ∷ path }
  unfolding second_part
  second_part_lem url volume path slash percent percent' =
      rw (strchr-append b'/' volume path slash, second_part)
        (rw (good.plain volume percent, good.plain path percent') refl)

halves-stored : (junk p : Bytes) → halves junk p ≡ stored junk (until b'/' p)
unfolding halves
halves-stored junk p = refl

pub halves_lem :
    (junk first second : Bytes)
    → 0 < length first
    → Free b'/' first
    → 0 < length second
    → Free b'$' second
    → halves junk (first ++ (b'/' ∷ second)) ≡ (first, some second)
unfolding stored
halves_lem junk [] second some_first slash some_second dollar = elim some_first [ ]
halves_lem junk (f ∷ fs) [] some_first slash some_second dollar = elim some_second [ ]
halves_lem junk (f ∷ fs) (c ∷ cs) some_first slash some_second dollar =
    rw (halves-stored junk ((f ∷ fs) ++ (b'/' ∷ c ∷ cs)), until-append b'/' (f ∷ fs) (c ∷ cs) slash)
      (rw (until-all b'$' (c ∷ cs) dollar) refl)

pub scheme_lem : (rest : Bytes) → scheme (afp ++ (colon_slashes ++ rest)) ≡ ok rest
unfolding scheme strstr strip_prefix str_eq
scheme_lem rest = refl
