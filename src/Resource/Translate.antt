-- ===== src/Resource/Translate.antt =====
-- `extra_translate` of lib/resource.c. `strstr` and the copies are splits of the path.
use afpfs_ng.Common.{
  not, ◌-◌, [], ◌∷◌, ◌++◌, Bytes, ◌&&◌, Option, none, some, ltb, ◌==◌, if◌then◌else◌, length, take,
  drop,
}
use afpfs_ng.Did.Cache.{str_eq}
use afpfs_ng.Did.Lookup.{split_last}
use afpfs_ng.Volume.{Volume}

-- AFP_META_*.
pub data Meta : Type 0 where
  no_meta resource apple_double finder_info comment server_icon : Meta

-- ".AppleDouble"
abbrev pub appledouble : Bytes
appledouble = b'.' ∷ b'A' ∷ b'p' ∷ b'p' ∷ b'l' ∷ b'e' ∷ b'D' ∷ b'o' ∷ b'u' ∷ b'b' ∷ b'l' ∷ b'e' ∷ []

-- ".finderinfo"
abbrev pub finderinfo_string : Bytes
finderinfo_string = b'.' ∷ b'f' ∷ b'i' ∷ b'n' ∷ b'd' ∷ b'e' ∷ b'r' ∷ b'i' ∷ b'n' ∷ b'f' ∷ b'o' ∷ []

-- ".comment"
abbrev pub comment_string : Bytes
comment_string = b'.' ∷ b'c' ∷ b'o' ∷ b'm' ∷ b'm' ∷ b'e' ∷ b'n' ∷ b't' ∷ []

-- "/.servericon"
abbrev pub servericon_string : Bytes
servericon_string =
    b'/' ∷ b'.' ∷ b's' ∷ b'e' ∷ b'r' ∷ b'v' ∷ b'e' ∷ b'r' ∷ b'i' ∷ b'c' ∷ b'o' ∷ b'n' ∷ []

-- What follows a prefix.
unfoldable pub strip_prefix : Bytes → Bytes → Option Bytes
strip_prefix [] s = some s
strip_prefix (c ∷ cs) [] = none
strip_prefix (c ∷ cs) (d ∷ ds) = if c == d then strip_prefix cs ds else none

-- `strstr`: what stands before the first occurrence, and after it.
unfoldable pub strstr : Bytes → Bytes → Option (Bytes × Bytes)
unfolding strip_prefix
strstr pattern [] = none
strstr pattern (c ∷ cs) =
    let later : Option (Bytes × Bytes) = elim (strstr pattern cs) [
      | some (before, after) ↦ some (c ∷ before, after)
      | none ↦ none
    ] in
    elim (strip_prefix pattern (c ∷ cs)) [ some after ↦ some ([], after) | none ↦ later ]

-- A name longer than the suffix that ends in it, without it.
unfoldable pub strip_suffix : Bytes → Bytes → Option Bytes
strip_suffix suffix s =
    let cut = length s - length suffix in
    if ltb (length suffix) (length s) && str_eq (drop cut s) suffix then some (take cut s) else none

-- "If the ending is .finderinfo, tag it".
unfoldable pub tag : Bytes → Meta × Bytes
unfolding strip_suffix
tag newpath =
    let other : Meta × Bytes = elim (strip_suffix comment_string newpath) [
      | some cut ↦ (comment, cut)
      | none ↦ (resource, newpath)
    ] in
    elim (strip_suffix finderinfo_string newpath) [ some cut ↦ (finder_info, cut) | none ↦ other ]

-- With the new path; where the source leaves it null, it is empty.
unfoldable pub extra_translate : Volume → Bytes → Meta × Bytes
unfolding strstr tag split_last
extra_translate v path =
    let under : Meta × Bytes = elim (strstr appledouble path) [
      | some (before, after) ↦ tag (before ++ drop 1 after)
      | none ↦ (no_meta, [])
    ] in
    let parent = if length path == 13 then b'/' ∷ [] else take (length path - 13) path in
    let named : Meta × Bytes = elim (split_last path) [
      | none ↦ (no_meta, [])
      | some (before, after) ↦ if str_eq after appledouble then (apple_double, parent) else under
    ] in
    if not v.extra_flags.show_appledouble
    then (no_meta, [])
    else if str_eq path servericon_string
    then (server_icon, [])
    else if ltb (length path) 13
    then (no_meta, [])
    else named
