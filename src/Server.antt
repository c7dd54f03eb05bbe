-- ===== src/Server.antt =====
-- lib/afp.c: how the client settles with a server on a version of AFP and a method of
-- authentication, and what it makes of the result of a login. Server/Mounts is about its volumes.
pub mod Mounts
pub mod Connect
pub mod Unmounts
pub mod Picked
use afpfs_ng.Common.{
  ℕ, zero, suc, ◌^◌, List, [], ◌∷◌, ◌++◌, Bytes, Bool, true, false, ◌==◌, Option, none, some,
  if◌then◌else◌, min, bit_and,
}
use Prim.Native.Nat.{max}
use afpfs_ng.Proto.Codes.{has}

-- `struct afp_versions`, with the table of them.
pub record AfpVersion : Type 0 where
  pub av_name : Bytes
  pub av_number : ℕ

abbrev afp_version : Bytes
afp_version = b'A' ∷ b'F' ∷ b'P' ∷ b'V' ∷ b'e' ∷ b'r' ∷ b's' ∷ b'i' ∷ b'o' ∷ b'n' ∷ 32 ∷ []

abbrev version : Bytes → ℕ → AfpVersion
version name number = record { av_name = name; av_number = number }

abbrev pub afp_versions : List AfpVersion
afp_versions =
    version (afp_version ++ (b'1' ∷ b'.' ∷ b'1' ∷ [])) 11
    ∷ version (afp_version ++ (b'2' ∷ b'.' ∷ b'0' ∷ [])) 20
    ∷ version (afp_version ++ (b'2' ∷ b'.' ∷ b'1' ∷ [])) 21
    ∷ version (b'A' ∷ b'F' ∷ b'P' ∷ b'2' ∷ b'.' ∷ b'2' ∷ []) 22
    ∷ version (b'A' ∷ b'F' ∷ b'P' ∷ b'X' ∷ b'0' ∷ b'3' ∷ []) 30
    ∷ version (b'A' ∷ b'F' ∷ b'P' ∷ b'3' ∷ b'.' ∷ b'1' ∷ []) 31
    ∷ version (b'A' ∷ b'F' ∷ b'P' ∷ b'3' ∷ b'.' ∷ b'2' ∷ []) 32
    ∷ []

-- The loop over the versions of the server, which end at a 0 or with the array: the requested one,
-- or the highest. They are below 128, as those of the table are.
unfoldable pub choose : (requested highest : ℕ) → List ℕ → ℕ
choose requested highest [] = highest
choose requested highest (v ∷ vs) =
    let later = choose requested (max highest v) vs in
    if v == 0 then highest else if v == requested then v else later

unfoldable pub find_version : (version_num : ℕ) → List AfpVersion → Option AfpVersion
find_version n [] = none
find_version n (p ∷ ps) =
    let later = find_version n ps in if p.av_number == n then some p else later

-- AFP_MAX_SUPPORTED_VERSION is 32. Without a request, 0 is looked for and not found.
unfoldable pub pick_version : (versions : List ℕ) → (requested : ℕ) → Option AfpVersion
unfolding choose find_version
pick_version versions requested = find_version (choose (min requested 32) 0 versions) afp_versions

-- The bits below `n`, from the highest on.
unfoldable pub pick_below : (n common : ℕ) → Option ℕ
pick_below zero common = none
pick_below (suc i) common =
    let later = pick_below i common in if has common (2 ^ i) then some (2 ^ i) else later

-- `none` is -1.
unfoldable pub pick_uam : (uam2 uam1 : ℕ) → Option ℕ
unfolding pick_below
pick_uam uam2 uam1 = pick_below 16 (bit_and uam2 uam1)

-- The results of `afp_dologin` that `afp_server_login` tells apart.
pub data LoginResult : Type 0 where
  no_err no_uam auth_continue bad_uam bad_vers_num call_not_supported misc_err : LoginResult
  no_server pwd_expired pwd_needs_change server_going_down user_not_auth other : LoginResult

-- Whether the login goes on. A case that ends without `break` goes on with the next one.
unfoldable pub is_logged_in : LoginResult → Bool
is_logged_in no_err = true
is_logged_in bad_vers_num = true
is_logged_in call_not_supported = true
is_logged_in misc_err = true
is_logged_in _ = false

-- The session token that is asked for behind a login: to resume a session, or for a new one.
pub data Token : Type 0 where
  resume fresh : Token

-- What the function returns (`true` for 0), the token asked for, and `need_resume`.
unfoldable pub afp_server_login :
    (supports_reconnect need_resume : Bool) → LoginResult → Bool × Option Token × Bool
unfolding is_logged_in
afp_server_login supports_reconnect need_resume rc =
    if is_logged_in rc
    then if supports_reconnect
      then (true, some (if need_resume then resume else fresh), false)
      else (true, none, need_resume)
    else (false, none, need_resume)
