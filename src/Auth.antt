-- ===== src/Auth.antt =====
-- lib/uams.c: the table of the methods of authentication, and the methods that send a password as
-- it is or encrypt a random number with it. DES is libgcrypt's, a parameter. User names have 255
-- bytes at most.
use afpfs_ng.Common.{
  ℕ, ◌+◌, ◌-◌, ◌*◌, ◌%◌, List, [], ◌∷◌, ◌++◌, Bytes, Bool, true, false, ltb, ◌==◌, Option, none,
  some, if◌then◌else◌, length, take, replicate, bit_or,
}
use afpfs_ng.Did.Cache.{str_eq}
use afpfs_ng.Dsi.Status.{uam_string_to_bitmap}
use afpfs_ng.Names.{copy_to_pascal}
use afpfs_ng.Proto.Session.{afp_login, afp_logincont, afp_changepassword}

-- `struct afp_uam` with its place in the list: what it does at a login, and whether it changes
-- passwords.
pub record AfpUam : Type 0 where
  pub bitmap : ℕ
  pub name : Bytes
  pub changes_passwords : Bool

-- The methods that are registered, with the text of their names.
pub record Uams : Type 0 where
  pub uam_base : List AfpUam
  pub uam_names_list : Bytes

-- ", "
abbrev comma : Bytes
comma = b',' ∷ 32 ∷ []

-- True for 0. Where the text is nearly full the method is in the list all the same.
unfoldable pub register_uam : Uams → AfpUam → Bool × Uams
unfolding uam_string_to_bitmap
register_uam u uam =
    let bitmap = uam_string_to_bitmap uam.name in
    let listed = record u { uam_base = u.uam_base ++ (record uam { bitmap = bitmap } ∷ []) } in
    let named =
      if length u.uam_names_list == 0 then uam.name else u.uam_names_list ++ (comma ++ uam.name) in
    if bitmap == 0
    then (false, u)
    else if ltb 255 (length u.uam_names_list + 20)
    then (false, listed)
    else (true, record listed { uam_names_list = named })

unfoldable pub find_uam_by_bitmap : ℕ → List AfpUam → Option AfpUam
find_uam_by_bitmap i [] = none
find_uam_by_bitmap i (u ∷ us) =
    let later = find_uam_by_bitmap i us in if u.bitmap == i then some u else later

unfoldable pub find_uam_by_name : Bytes → List AfpUam → ℕ
find_uam_by_name name [] = 0
find_uam_by_name name (u ∷ us) =
    let later = find_uam_by_name name us in if str_eq u.name name then u.bitmap else later

-- UAM_CLEARTXTPASSWRD, and with libgcrypt UAM_RANDNUMEXCHANGE, UAM_2WAYRANDNUM, UAM_DHCAST128 and
-- UAM_DHX2.
unfoldable pub default_uams_mask : (have_libgcrypt : Bool) → ℕ
default_uams_mask have_libgcrypt =
    if have_libgcrypt then bit_or 0x2 (bit_or (bit_or 0x4 0x8) (bit_or 0x10 0x40)) else 0x2

abbrev pub no_user_authent : Bytes
no_user_authent =
    b'N' ∷ b'o' ∷ 32 ∷ b'U' ∷ b's' ∷ b'e' ∷ b'r' ∷ 32 ∷ b'A' ∷ b'u' ∷ b't' ∷ b'h' ∷ b'e' ∷ b'n'
    ∷ b't' ∷ []

abbrev pub cleartxt_passwrd : Bytes
cleartxt_passwrd =
    b'C' ∷ b'l' ∷ b'e' ∷ b'a' ∷ b'r' ∷ b't' ∷ b'x' ∷ b't' ∷ 32 ∷ b'P' ∷ b'a' ∷ b's' ∷ b's' ∷ b'w'
    ∷ b'r' ∷ b'd' ∷ []

abbrev pub randnum_exchange : Bytes
randnum_exchange =
    b'R' ∷ b'a' ∷ b'n' ∷ b'd' ∷ b'n' ∷ b'u' ∷ b'm' ∷ 32 ∷ b'E' ∷ b'x' ∷ b'c' ∷ b'h' ∷ b'a' ∷ b'n'
    ∷ b'g' ∷ b'e' ∷ []

-- `strncpy(p,s,8)`.
abbrev pub eight : Bytes → Bytes
eight s = take 8 s ++ replicate (8 - length s) 0

-- The user, and a 0 where the address behind it is even; the block begins at an even one.
abbrev pub user_block : Bytes → Bytes
user_block username = copy_to_pascal username ++ (if length username % 2 == 1 then 0 ∷ [] else [])

-- The login requests of these methods.
unfoldable pub noauth_login : (av_name : Bytes) → Bytes
noauth_login av_name = afp_login av_name no_user_authent []

unfoldable pub cleartxt_login : (av_name username passwd : Bytes) → Bytes
cleartxt_login av_name username passwd =
    afp_login av_name cleartxt_passwrd (user_block username ++ eight passwd)

-- The old password is not sent.
unfoldable pub cleartxt_passwd : (junk : ℕ) → (username oldpasswd newpasswd : Bytes) → Bytes
cleartxt_passwd junk username oldpasswd newpasswd =
    afp_changepassword junk cleartxt_passwrd (user_block username ++ eight newpasswd)

unfoldable pub randnum_login : (av_name username : Bytes) → Bytes
randnum_login av_name username = afp_login av_name randnum_exchange (copy_to_pascal username)

-- The request that continues it, from the ID and the random number of the reply; `none` is -1.
unfoldable pub randnum_logincont :
    (des : (key block : Bytes) → Option Bytes) → (passwd reply : Bytes) → Option Bytes
randnum_logincont des passwd (a ∷ b ∷ number) = elim (des (eight passwd) (take 8 number)) [
  | none ↦ none
  | some encrypted ↦ some (afp_logincont (a * 256 + b) encrypted)
]
randnum_logincont des passwd _ = none
