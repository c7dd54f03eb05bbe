-- ===== src/Did/Walk.antt =====
-- What `get_dirid` resolves, against a server that keeps a tree of directories.
use afpfs_ng.Common.{
  ℕ, zero, suc, ◌+◌, ◌<◌, ◌≡◌, ◌∙◌, ◌≢◌, refl, sym, List, [], ◌∷◌, ◌++◌, Bytes, true, Option, none,
  some, arith, length, All, Option-cases, inl, inr,
}
use afpfs_ng.Did.Cache.{add_did_cache_entry}
use afpfs_ng.Did.Lookup.{split_first, walk}
use afpfs_ng.Proto.Calls.{Call, get_file_dir_parms}
use afpfs_ng.Proto.Codes.{no_err, object_not_found, node_id_bit}
use afpfs_ng.Volume.{Volume, World, FileInfo, request}

-- The directories: the ID of a child by its parent's ID and its name.
abbrev pub Tree : Type 0
Tree = ℕ → Bytes → Option ℕ

-- The reference: follow the names from `parent`.
abbrev pub resolve : Tree → ℕ → List Bytes → Option ℕ
resolve tree parent [] = some parent
resolve tree parent (n ∷ ns) = elim (tree parent n) [
  | none ↦ none
  | some child ↦ resolve tree child ns
]

-- The server answers for the children of the tree, at any time, and denies the others.
pub record Serves (w : World) (tree : Tree) : Type 0 where
  pub child :
      (sent : List Call) (volid parent : ℕ) (name : Bytes) (child : ℕ)
      → tree parent name ≡ some child
      → let r =
          w.peer sent (get_file_dir_parms volid parent node_id_bit node_id_bit (b'/' ∷ name)) in
        (r.code ≡ no_err) × (r.info.isdir ≡ true) × (r.info.fileid ≡ child)
  pub missing :
      (sent : List Call) (volid parent : ℕ) (name : Bytes)
      → tree parent name ≡ none
      → (w.peer sent (get_file_dir_parms volid parent node_id_bit node_id_bit (b'/' ∷ name))).code
        ≡ object_not_found

abbrev HasNoSlash : Bytes → Type 0
HasNoSlash = All (λ c. c ≢ b'/')

-- The path of these directories with a last name, each after a slash.
abbrev pub spell : List Bytes → Bytes → Bytes
spell [] last = b'/' ∷ last
spell (n ∷ ns) last = b'/' ∷ (n ++ spell ns last)

split_first-append :
    (n rest : Bytes) → HasNoSlash n → split_first (n ++ (b'/' ∷ rest)) ≡ some (n, b'/' ∷ rest)
unfolding split_first
split_first-append [] rest h = refl
split_first-append (c ∷ n) rest h = ground (arith, h.0, split_first-append n rest h.1)

split_first-none : (n : Bytes) → HasNoSlash n → split_first n ≡ none
unfolding split_first
split_first-none [] h = refl
split_first-none (c ∷ n) h = ground (arith, h.0, split_first-none n h.1)

-- A path is a slash and more.
spell_head : (ns : List Bytes) (last : Bytes) → (t : Bytes) × (spell ns last ≡ b'/' ∷ t)
spell_head [] last = (last, refl)
spell_head (n ∷ ns) last = (n ++ spell ns last, refl)

module _ (w : World) (tree : Tree) (serves : Serves w tree) (last : Bytes)
    (plain : HasNoSlash last) where
  walk_step :
      (n t : Bytes) (fuel : ℕ) (fi : FileInfo) (parent child : ℕ) (done : Bytes) (v : Volume)
      → HasNoSlash n
      → tree parent n ≡ some child
      → let r =
          request w
            (get_file_dir_parms v.volid parent node_id_bit node_id_bit (b'/' ∷ n))
            (record v { misses = v.misses + 1 }) in
        let here = done ++ (b'/' ∷ n) in
        (walk w (suc fuel) fi parent done (b'/' ∷ (n ++ (b'/' ∷ t))) v).0
        ≡ (walk w fuel r.0.info child here (b'/' ∷ t) (add_did_cache_entry w child here r.1).1).0
  unfolding walk
  walk_step n t fuel fi parent child done v h e =
      let s = serves.child v.sent v.volid parent n child e in
      ground (arith, split_first-append n t h, s.0, s.1, s.2)

  -- Following the names of a path, each directory being found by the server under its parent,
  -- `walk` reaches the directory that the tree has for these names.
  pub walk-resolve :
      (ns : List Bytes) (fuel : ℕ) (fi : FileInfo) (parent d : ℕ) (done : Bytes) (v : Volume)
      → length ns < fuel
      → All HasNoSlash ns
      → resolve tree parent ns ≡ some d
      → (walk w fuel fi parent done (spell ns last) v).0 ≡ d
  unfolding walk
  walk-resolve ns zero fi parent d done v enough names e = absurd (omega arith)
  walk-resolve [] (suc fuel) fi parent d done v enough names e =
      ground (arith, split_first-none last plain)
  walk-resolve (n ∷ ns) (suc fuel) fi parent d done v enough names e =
      elim (Option-cases (tree parent n)) [
        | inl gone ↦ absurd (ground (arith, gone))
        | inr (child, found) ↦
            let rest = spell_head ns last in
            rw (rest.1, walk_step n rest.0 fuel fi parent child done v names.0 found, sym rest.1)
              (walk-resolve ns fuel _ child d _ _ (omega arith) names.1 (ground (arith, found)))
      ]

  walk_stale :
      (n t : Bytes) (fuel : ℕ) (fi : FileInfo) (parent : ℕ) (done : Bytes) (v : Volume)
      → HasNoSlash n
      → tree parent n ≡ none
      → fi.isdir ≡ true
      → let r =
          request w
            (get_file_dir_parms v.volid parent node_id_bit node_id_bit (b'/' ∷ n))
            (record v { misses = v.misses + 1 }) in
        let here = done ++ (b'/' ∷ n) in
        (walk w (suc fuel) fi parent done (b'/' ∷ (n ++ (b'/' ∷ t))) v).0
        ≡ (walk w fuel fi fi.fileid here (b'/' ∷ t) (add_did_cache_entry w fi.fileid here r.1).1).0
  unfolding walk
  walk_stale n t fuel fi parent done v h e dir =
      ground (arith, split_first-append n t h, serves.missing v.sent v.volid parent n e, dir)

  -- A directory that is missing below one that was just found is not noticed: `walk` takes the ID
  -- of the directory above it for it.
  pub walk-missing :
      (n m : Bytes) (fuel : ℕ) (fi : FileInfo) (parent child : ℕ) (done : Bytes) (v : Volume)
      → HasNoSlash n
      → HasNoSlash m
      → tree parent n ≡ some child
      → tree child m ≡ none
      → (walk w (suc (suc (suc fuel))) fi parent done (spell (n ∷ m ∷ []) last) v).0 ≡ child
  walk-missing n m fuel fi parent child done v hn hm found gone =
      let s = serves.child v.sent v.volid parent n child found in
      let r =
        request w (get_file_dir_parms v.volid parent node_id_bit node_id_bit (b'/' ∷ n))
          (record v { misses = v.misses + 1 }) in
      let here = done ++ (b'/' ∷ n) in
      walk_step n (m ++ (b'/' ∷ last)) (suc (suc fuel)) fi parent child done v hn found
      ∙ (walk_stale m last (suc fuel) r.0.info child here (add_did_cache_entry w child here r.1).1
            hm gone s.1
          ∙ (walk-resolve [] (suc fuel) r.0.info r.0.info.fileid r.0.info.fileid _ _ (omega arith)
                tt refl
              ∙ s.2))
