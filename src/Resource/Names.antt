-- ===== src/Resource/Names.antt =====
-- The names below `.AppleDouble`.
use afpfs_ng.Common.{
  ℕ, ◌≡◌, refl, [], ◌∷◌, ◌++◌, Bytes, true, false, some, ltb, length, length-append, append_assoc,
  ap, sym, ◌∙◌, drop, arith, Option-cases, Bool-cases, inl, inr, eperm,
}
use afpfs_ng.Did.Cache.{str_eq}
use afpfs_ng.Did.Lookup.{split_last}
use afpfs_ng.Resource.Refuse.{Absorbed, go_on, refused, appledouble_refuse}
use afpfs_ng.Resource.Translate.{
  appledouble, comment_string, finderinfo_string, servericon_string, strip_prefix, strstr,
  strip_suffix, tag, no_meta, extra_translate,
}
use afpfs_ng.Volume.{Volume}

-- A path below a directory `.AppleDouble`, or one of its name.
abbrev pub below : (dir name : Bytes) → Bytes
below dir name = dir ++ (b'/' ∷ (appledouble ++ name))

pub strip_prefix_lem :
    (pattern after : Bytes) → strip_prefix pattern (pattern ++ after) ≡ some after
unfolding strip_prefix
strip_prefix_lem [] after = refl
strip_prefix_lem (c ∷ cs) after = ground (arith, strip_prefix_lem cs after)

strstr-found :
    (p : ℕ) (ps before after : Bytes)
    → (found : Bytes × Bytes) × (strstr (p ∷ ps) (before ++ ((p ∷ ps) ++ after)) ≡ some found)
unfolding strstr
strstr-found p ps [] after = (([], after), rw (strip_prefix_lem (p ∷ ps) after, strstr) refl)
strstr-found p ps (c ∷ cs) after =
    let (found, e) = strstr-found p ps cs after in
    elim (Option-cases (strip_prefix (p ∷ ps) (c ∷ (cs ++ ((p ∷ ps) ++ after))))) [
      | inl n ↦ ((c ∷ found.0, found.1), rw (n, e, strstr) refl)
      | inr (rest, s) ↦ (([], rest), rw (s, strstr) refl)
    ]

split_last-found :
    (before after : Bytes)
    → (found : Bytes × Bytes) × (split_last (before ++ (b'/' ∷ after)) ≡ some found)
unfolding split_last
split_last-found [] after = elim (Option-cases (split_last after)) [
  | inl n ↦ (([], after), rw (n, split_last) refl)
  | inr (found, e) ↦ ((b'/' ∷ found.0, found.1), rw (e, split_last) refl)
]
split_last-found (c ∷ cs) after =
    let (found, e) = split_last-found cs after in ((c ∷ found.0, found.1), rw (e, split_last) refl)

length-below : (dir name : Bytes) → ltb (length (below dir name)) 13 ≡ false
length-below dir name = ground (arith, length-append dir (b'/' ∷ (appledouble ++ name)))

tag-refused :
    (v : Volume) (s : Bytes)
    → elim (tag s).0 as (λ m. Absorbed) [ no_meta ↦ go_on | _ ↦ refused eperm ] ≡ refused eperm
unfolding tag
tag-refused v s = elim (Option-cases (strip_suffix finderinfo_string s)) [
  | inr (cut, e) ↦ rw (e, tag) refl
  | inl n ↦ elim (Option-cases (strip_suffix comment_string s)) [
    | inr (cut, e) ↦ rw (n, e, tag) refl
    | inl m ↦ rw (n, m, tag) refl
  ]
]

refused_lem :
    (v : Volume) (path : Bytes) (parts found : Bytes × Bytes)
    → v.extra_flags.show_appledouble ≡ true
    → ltb (length path) 13 ≡ false
    → split_last path ≡ some parts
    → strstr appledouble path ≡ some found
    → appledouble_refuse v path ≡ refused eperm
unfolding appledouble_refuse extra_translate
refused_lem v path parts found shown long split at =
    elim (Bool-cases (str_eq path servericon_string)) [
      | inl icon ↦ rw (shown, icon, extra_translate, appledouble_refuse) refl
      | inr other ↦ elim (Bool-cases (str_eq parts.1 appledouble)) [
        | inl dir ↦ rw (shown, other, long, split, dir, extra_translate, appledouble_refuse) refl
        | inr file ↦
            rw (shown, other, long, split, file, at, extra_translate, appledouble_refuse)
              (tag-refused v (found.0 ++ drop 1 found.1))
      ]
    ]

-- A path below a directory `.AppleDouble` is refused by the operations that metadata names do not
-- have, where the volume shows these names.
pub appledouble_refuse-below :
    (v : Volume) (dir name : Bytes)
    → v.extra_flags.show_appledouble ≡ true
    → appledouble_refuse v (below dir name) ≡ refused eperm
appledouble_refuse-below v dir name shown =
    let (parts, split) = split_last-found dir (appledouble ++ name) in
    let (found, at) = strstr-found b'.' (drop 1 appledouble) (dir ++ (b'/' ∷ [])) name in
    let at' : strstr appledouble (below dir name) ≡ some found =
      ap (strstr appledouble) (sym (append_assoc dir (b'/' ∷ []) (appledouble ++ name))) ∙ at in
    refused_lem v (below dir name) parts found shown (length-below dir name) split at'
