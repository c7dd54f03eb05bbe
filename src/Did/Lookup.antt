-- ===== src/Did/Lookup.antt =====
-- `get_dirid` and `is_dir` of lib/did.c. Pointers into the path are splits of it. A path that does
-- not start with a slash makes the source compute with a null pointer: `none`.
use afpfs_ng.Common.{
  ℕ, zero, suc, ◌+◌, [], ◌∷◌, ◌++◌, Bytes, Bool, true, false, Option, none, some, ◌==◌,
  if◌then◌else◌, length, drop,
}
use afpfs_ng.Did.Cache.{find_dirid_by_fullname, add_did_cache_entry}
use afpfs_ng.Proto.Calls.{get_file_dir_parms}
use afpfs_ng.Proto.Codes.{no_err, node_id_bit}
use afpfs_ng.Volume.{World, FileInfo, Reply, M, request}

-- `strrchr(path,'/')`: what stands before the last slash and after it.
unfoldable pub split_last : Bytes → Option (Bytes × Bytes)
split_last [] = none
split_last (c ∷ cs) = elim (split_last cs) [
  | some (before, after) ↦ some (c ∷ before, after)
  | none ↦ if c == b'/' then some ([], cs) else none
]

-- `strchr(path,'/')`: what stands before the first slash, and the slash with what follows.
unfoldable pub split_first : Bytes → Option (Bytes × Bytes)
split_first [] = none
split_first (c ∷ cs) =
    let later = split_first cs in
    if c == b'/'
    then some ([], c ∷ cs)
    else elim later [ none ↦ none | some (before, rest) ↦ some (c ∷ before, rest) ]

abbrev pub root_did : ℕ
root_did = 2

-- A failed call leaves the struct as it was.
abbrev pub filled : Reply → FileInfo → FileInfo
filled r old = elim r.code [ no_err ↦ r.info | _ ↦ old ]

abbrev is_empty : Bytes → Bool
is_empty [] = true
is_empty (c ∷ cs) = false

-- "Work your way back to the start": the deepest parent in the cache, or the root, with its path.
unfoldable pub cached_parent : World → ℕ → Bytes → M (Option (ℕ × Bytes))
cached_parent w zero copy v = (none, v)
cached_parent w (suc fuel) copy v = elim (split_last copy) [
  | none ↦ (none, v)
  | some (before, after) ↦
      let r = find_dirid_by_fullname w before v in
      let back = cached_parent w fuel before r.1 in
      if is_empty before
      then (some (root_did, []), v)
      else (if r.0 == 0 then back else (some (r.0, before), r.1))
]

-- "Move forward now": `done` is the path up to `p2`, whose ID is `parent`, and `rest` what follows,
-- with its slash. Each name is sent with the slash before it.
unfoldable pub walk : World → ℕ → FileInfo → ℕ → Bytes → Bytes → M ℕ
walk w zero fi parent done rest v = (parent, v)
walk w (suc fuel) fi parent done [] v = (parent, v)
walk w (suc fuel) fi parent done (slash ∷ tail) v = elim (split_first tail) [
  | none ↦ (parent, v)
  | some (name, further) ↦
      let r =
        request w (get_file_dir_parms v.volid parent node_id_bit node_id_bit (slash ∷ name))
          (record v { misses = v.misses + 1 }) in
      let fi' = filled r.0 fi in
      let here = done ++ (slash ∷ name) in
      let onward =
        walk w fuel fi' fi'.fileid here further (add_did_cache_entry w fi'.fileid here r.1).1 in
      if fi'.isdir then onward else (parent, r.1)
]

-- The parent's ID and the last name; `none` for -1.
unfoldable pub get_dirid : World → Bytes → M (Option (ℕ × Bytes))
unfolding cached_parent walk split_last split_first
get_dirid w [] v = (some (root_did, []), v)
get_dirid w (c ∷ cs) v = elim (split_last (c ∷ cs)) [
  | none ↦ (none, v)
  | some (copy, basename) ↦
      let r = find_dirid_by_fullname w copy v in
      let back = cached_parent w (length copy) copy r.1 in
      let lookup =
        if r.0 == 0
        then elim back.0 [
          | none ↦ (none, back.1)
          | some (parent, known) ↦
              let rest = drop (length known) (c ∷ cs) in
              let out = walk w (length rest) w.junk parent known rest back.1 in
              (some (out.0, basename), out.1)
        ]
        else (some (r.0, basename), r.1) in
      if is_empty copy then (some (root_did, basename), v) else lookup
]

unfoldable pub is_dir : World → ℕ → Bytes → M Bool
is_dir w parentdid path v =
    let r = request w (get_file_dir_parms v.volid parentdid 0 0 path) v in
    (elim r.0.code [ no_err ↦ r.0.info.isdir | _ ↦ false ], r.1)
