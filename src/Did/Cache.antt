-- ===== src/Did/Cache.antt =====
-- The cache of lib/did.c. The linked list is a list, its head first; a node that is cut off and
-- freed is gone from it.
use afpfs_ng.Common.{
  ℕ, ◌+◌, List, [], ◌∷◌, Bytes, Bool, true, false, ◌&&◌, ◌==◌, ltb, if◌then◌else◌,
}
use afpfs_ng.Volume.{CacheEntry, World, M}

-- `strcmp(...)==0`
unfoldable pub str_eq : Bytes → Bytes → Bool
str_eq [] [] = true
str_eq (x ∷ xs) (y ∷ ys) = x == y && str_eq xs ys
str_eq _ _ = false

abbrev timeout : ℕ
timeout = 10

abbrev pub is_expired : ℕ → CacheEntry → Bool
is_expired time e = ltb (e.time + timeout) time

-- The result of a search: the ID or 0, the list as it is left, and what is added to the statistics.
pub record Found : Type 0 where
  pub did : ℕ
  pub cache : List CacheEntry
  pub expired : ℕ
  pub hits : ℕ

abbrev found : ℕ → List CacheEntry → ℕ → ℕ → Found
found d cache n h = record { did = d; cache = cache; expired = n; hits = h }

-- The list behind `front`, whose nodes are reversed.
unfoldable pub onto : List CacheEntry → List CacheEntry → List CacheEntry
onto [] rest = rest
onto (e ∷ front) rest = onto front (e ∷ rest)

-- The loop where `prev` is not the head of the list: `front` is what stands before it, and the list
-- from `p` on is the argument. An expired node is cut out, and `prev` is compared once more.
unfoldable pub find_later :
    (time : ℕ) (path : Bytes) (n : ℕ) (front : List CacheEntry) (prev : CacheEntry)
    → List CacheEntry
    → Found
unfolding onto
find_later time path n front prev [] = found 0 (onto front (prev ∷ [])) n 0
find_later time path n front prev (p ∷ ps) = elim (is_expired time p) [
  | true ↦ elim (str_eq prev.dirname path) [
    | true ↦ found prev.did (onto front (prev ∷ ps)) (n + 1) 1
    | false ↦ find_later time path (n + 1) front prev ps
  ]
  | false ↦ elim (str_eq p.dirname path) [
    | true ↦ found p.did (onto front (prev ∷ p ∷ ps)) n 1
    | false ↦ find_later time path n (prev ∷ front) p ps
  ]
]

-- The loop where `prev` is the head of the list and `p` the node behind it. An expired `p` makes
-- the node behind it the head, so that `prev` is lost, and the new head is passed over.
unfoldable pub find_second :
    (time : ℕ) (path : Bytes) (n : ℕ) (prev : CacheEntry) → List CacheEntry → Found
unfolding find_later
find_second time path n prev [] = found 0 (prev ∷ []) n 0
find_second time path n prev (p ∷ []) = elim (is_expired time p) [
  | true ↦ found 0 [] (n + 1) 0
  | false ↦ elim (str_eq p.dirname path) [
    | true ↦ found p.did (prev ∷ p ∷ []) n 1
    | false ↦ find_later time path n (prev ∷ []) p []
  ]
]
find_second time path n prev (p ∷ q ∷ ps) = elim (is_expired time p) [
  | true ↦ elim (str_eq p.dirname path) [
    | true ↦ found 0 (q ∷ ps) (n + 1) 0
    | false ↦ find_second time path (n + 1) q ps
  ]
  | false ↦ elim (str_eq p.dirname path) [
    | true ↦ found p.did (prev ∷ p ∷ q ∷ ps) n 1
    | false ↦ find_later time path n (prev ∷ []) p (q ∷ ps)
  ]
]

-- The first round, where `prev` and `p` are the head of the list.
unfoldable pub search_cache : (time : ℕ) (path : Bytes) → List CacheEntry → Found
unfolding find_second find_later
search_cache time path [] = found 0 [] 0 0
search_cache time path (p ∷ []) = elim (is_expired time p) [
  | true ↦ found 0 [] 1 0
  | false ↦ elim (str_eq p.dirname path) [
    | true ↦ found p.did (p ∷ []) 0 1
    | false ↦ found 0 (p ∷ []) 0 0
  ]
]
search_cache time path (p ∷ q ∷ ps) = elim (is_expired time p) [
  | true ↦ elim (str_eq p.dirname path) [
    | true ↦ found 0 (q ∷ ps) 1 0
    | false ↦ find_second time path 1 q ps
  ]
  | false ↦ elim (str_eq p.dirname path) [
    | true ↦ found p.did (p ∷ q ∷ ps) 0 1
    | false ↦ find_second time path 0 p (q ∷ ps)
  ]
]

unfoldable pub find_dirid_by_fullname : World → Bytes → M ℕ
unfolding search_cache
find_dirid_by_fullname w path v =
    let f = search_cache (w.now v.sent) path v.did_cache in
    (
      f.did,
      record v { did_cache = f.cache; expired = v.expired + f.expired; hits = v.hits + f.hits },
    )

-- The first node with this name goes.
unfoldable pub remove_name : Bytes → List CacheEntry → List CacheEntry × ℕ
remove_name name [] = ([], 0)
remove_name name (d ∷ ds) =
    let later = remove_name name ds in
    if str_eq d.dirname name then (ds, 1) else (d ∷ later.0, later.1)

unfoldable pub remove_did_entry : Bytes → M (Unit {0})
unfolding remove_name
remove_did_entry name v =
    let r = remove_name name v.did_cache in
    (tt, record v { did_cache = r.0; force_removed = v.force_removed + r.1 })

unfoldable pub add_did_cache_entry : World → ℕ → Bytes → M (Unit {0})
add_did_cache_entry w new_did path v = (
  tt,
  record v {
    did_cache = record { dirname = path; did = new_did; time = w.now v.sent } ∷ v.did_cache;
  },
)
