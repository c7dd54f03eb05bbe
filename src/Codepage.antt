-- ===== src/Codepage.antt =====
-- lib/codepage.c: names between the forms of Unix and of AFP. The conversions of lib/unicode.c,
-- which is adopted from another project, are parameters. A buffer overflow of the converted name is
-- not modelled.
pub mod Compose
use afpfs_ng.Common.{
  ℕ, ◌+◌, ◌%◌, ◌&&◌, List, [], ◌∷◌, Bytes, Bool, true, false, Option, none, some, ltb, ◌==◌,
  if◌then◌else◌,
}
use afpfs_ng.Names.{Encoding, utf8_name, long_name, short_name}

-- `UTF8toUCS2`, `UCS2toUTF8` and `UCS2precompose`, for which `none` is -1.
pub record Unicode : Type 0 where
  pub utf8_to_ucs2 : Bytes → List ℕ
  pub ucs2_to_utf8 : List ℕ → Bytes
  pub precompose : ℕ → ℕ → Option ℕ

-- The loop of `convert_utf8dec_to_utf8pre`; what stands in `prev` is written at the end.
unfoldable pub combine : (ℕ → ℕ → Option ℕ) → (prev : ℕ) → List ℕ → List ℕ
combine precompose prev [] = if prev == 0 then [] else prev ∷ []
combine precompose prev (c ∷ cs) = elim (ltb 0 prev) [
  | false ↦ combine precompose c cs
  | true ↦ elim (precompose prev c) [
    | some comp ↦ combine precompose (comp % 65536) cs
    | none ↦ prev ∷ combine precompose c cs
  ]
]

unfoldable pub convert_utf8dec_to_utf8pre : Unicode → Bytes → Bytes
unfolding combine
convert_utf8dec_to_utf8pre u src = u.ucs2_to_utf8 (combine u.precompose 0 (u.utf8_to_ucs2 src))

-- The one sequence that is translated is the small a with a diaeresis.
unfoldable pub convert_utf8pre_to_utf8dec : Bytes → Bytes
convert_utf8pre_to_utf8dec [] = []
convert_utf8pre_to_utf8dec (a ∷ []) = a ∷ []
convert_utf8pre_to_utf8dec (a ∷ b ∷ src) =
    let pair = 0x61 ∷ 0xcc ∷ 0x88 ∷ convert_utf8pre_to_utf8dec src in
    let one = a ∷ convert_utf8pre_to_utf8dec (b ∷ src) in
    if a == 0xc3 && b == 0xa4 then pair else one

-- `none` is -1.
unfoldable pub convert_path_to_unix : Unicode → Encoding → Bytes → Option Bytes
unfolding convert_utf8dec_to_utf8pre
convert_path_to_unix u utf8_name src = some (convert_utf8dec_to_utf8pre u src)
convert_path_to_unix u long_name src = some src
convert_path_to_unix u short_name src = none

unfoldable pub convert_path_to_afp : Encoding → Bytes → Option Bytes
unfolding convert_utf8pre_to_utf8dec
convert_path_to_afp utf8_name src = some (convert_utf8pre_to_utf8dec src)
convert_path_to_afp long_name src = some src
convert_path_to_afp short_name src = none
