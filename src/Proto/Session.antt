-- ===== src/Proto/Session.antt =====
-- lib/proto_login.c, lib/proto_session.c and lib/proto_attr.c: the requests behind their DSI
-- header. A `junk` argument is what a field holds that the source does not fill. Names that are
-- sent as Pascal strings have 255 bytes at most.
use afpfs_ng.Common.{
  ℕ, ◌/◌, ◌%◌, ◌<◌, ◌≡◌, refl, [], ◌∷◌, ◌++◌, Bytes, ltb, ◌==◌, Option, none, some, if◌then◌else◌,
  length, take, arith,
}
use afpfs_ng.Names.{Encoding, afp_path, copy_to_pascal}
use afpfs_ng.Names.Paths.{take_all}
use afpfs_ng.Wire.{Reader, ◌>>=◌, pure, be16, be32, be64, u8, bytes, rest_of}
use afpfs_ng.Wire.Laws.{u8-cons, bytes-append, rest_of_lem}

unfoldable pub afp_logout : Bytes
afp_logout = 20 ∷ 0 ∷ []

unfoldable pub afp_changepassword : (junk : ℕ) → (ua_name userauthinfo : Bytes) → Bytes
afp_changepassword junk ua_name userauthinfo = 36 ∷ junk ∷ (copy_to_pascal ua_name ++ userauthinfo)

unfoldable pub afp_login : (av_name ua_name userauthinfo : Bytes) → Bytes
afp_login av_name ua_name userauthinfo =
    18 ∷ (copy_to_pascal av_name ++ (copy_to_pascal ua_name ++ userauthinfo))

unfoldable pub afp_logincont : (id : ℕ) → (userauthinfo : Bytes) → Bytes
afp_logincont id userauthinfo = 19 ∷ 0 ∷ (be16 id ++ userauthinfo)

-- What the types of a session token send: the time and the token, the token, or nothing; `none` for
-- those that are refused.
pub data TokenParts : Type 0 where
  time_and_token token_only nothing : TokenParts

unfoldable pub token_parts : (type : ℕ) → Option TokenParts
token_parts type =
    if type == 3
    then some time_and_token
    else if type == 4
    then some time_and_token
    else if type == 5
    then some token_only
    else if type == 0
    then some nothing
    else if type == 7
    then some nothing
    else if type == 6
    then some nothing
    else none

-- The time goes in the order of the host.
abbrev little_endian : ℕ → Bytes
little_endian n = n % 256 ∷ n / 256 % 256 ∷ n / 65536 % 256 ∷ n / 16777216 % 256 ∷ []

-- `none` is -1, with nothing sent.
unfoldable pub afp_getsessiontoken : (type timestamp : ℕ) → (token : Bytes) → Option Bytes
unfolding token_parts
afp_getsessiontoken type timestamp token =
    let head = λ (n : ℕ). 64 ∷ 0 ∷ (be16 type ++ be32 n) in
    elim (token_parts type) [
      | none ↦ none
      | some time_and_token ↦ some (head (length token) ++ (little_endian timestamp ++ token))
      | some token_only ↦ some (head (length token) ++ token)
      | some nothing ↦ some (head 0)
    ]

-- The token is copied to `request + sizeof(*request)`, 24 structs behind the request and outside of
-- it, so that what is sent for it is `junk`, as long as the token.
unfoldable pub afp_disconnectoldsession :
    (junk_pad : ℕ) → (junk : Bytes) → (type : ℕ) → (token : Bytes) → Option Bytes
afp_disconnectoldsession junk_pad junk type token =
    if ltb 256 (length token)
    then none
    else some (65 ∷ junk_pad ∷ (be16 type ++ (be32 (length token) ++ take (length token) junk)))

unfoldable pub afp_newcommand76 : (volid : ℕ) → Bytes → Bytes
afp_newcommand76 volid contents = 76 ∷ 0 ∷ (be16 volid ++ contents)

-- `hton64` of the largest size of the reply, cut to 32 bits, is the high half of the number.
unfoldable pub afp_listextattr : Encoding → (volid dirid bitmap maxsize : ℕ) → Bytes → Bytes
afp_listextattr enc volid dirid bitmap maxsize pathname =
    72
    ∷ 0
    ∷ (be16 volid
        ++ (be32 dirid
            ++ (be16 bitmap
                ++ (be16 0 ++ (be32 0 ++ (be32 (maxsize / 4294967296) ++ afp_path enc pathname))))))

-- Of the name with its length, as many bytes as the name has are sent. It begins at an even
-- address.
unfoldable pub afp_getextattr :
    Encoding → (junk junk_pad volid dirid replysize : ℕ) → (pathname name : Bytes) → Bytes
afp_getextattr enc junk junk_pad volid dirid replysize pathname name =
    let path = afp_path enc pathname in
    let pad = if length path % 2 == 0 then [] else junk_pad ∷ [] in
    69
    ∷ 0
    ∷ (be16 volid
        ++ (be32 dirid
            ++ (be16 junk
                ++ (be64 0
                    ++ (be64 0
                        ++ (be32 replysize
                            ++ (path
                                ++ (pad ++ take (length name) (be16 (length name) ++ name)))))))))

-- Neither the bitmap nor the offset is filled, and neither the name nor its value is sent.
unfoldable pub afp_setextattr :
    Encoding → (junk junk_offset volid dirid : ℕ) → (pathname : Bytes) → Bytes
afp_setextattr enc junk junk_offset volid dirid pathname =
    70
    ∷ 0
    ∷ (be16 volid ++ (be32 dirid ++ (be16 junk ++ (be64 junk_offset ++ afp_path enc pathname))))

-- How a server reads a login: the version, the name of the UAM and what the UAM sends.
unfoldable pub pascal : Reader Bytes
pascal = do n ← u8; bytes n

unfoldable pub read_login : Reader (ℕ × Bytes × Bytes × Bytes)
read_login = do
  command ← u8
  version ← pascal
  uam ← pascal
  info ← rest_of
  pure (command, version, uam, info)

pascal_lem : (s rest : Bytes) → length s < 256 → pascal (copy_to_pascal s ++ rest) ≡ some (s, rest)
unfolding pascal copy_to_pascal u8
pascal_lem s rest h =
    let e : length s % 256 ≡ length s = omega arith in
    rw (e, take_all s _ refl) (bytes-append s rest)

-- A server that reads a login by the AFP reference gets the version, the name of the UAM and what
-- the UAM sends, where the names have 255 bytes at most.
pub read_login-afp_login :
    (av_name ua_name userauthinfo : Bytes)
    → length av_name < 256
    → length ua_name < 256
    → read_login (afp_login av_name ua_name userauthinfo)
      ≡ some ((18, av_name, ua_name, userauthinfo), [])
unfolding read_login afp_login
read_login-afp_login av_name ua_name userauthinfo h k =
    simp (◌>>=◌, u8-cons, pascal_lem av_name _ h, pascal_lem ua_name _ k, rest_of_lem)
