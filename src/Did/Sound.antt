-- ===== src/Did/Sound.antt =====
-- What a search of the cache may answer, and what it does to the cache.
use afpfs_ng.Common.{
  ℕ, ◌+◌, ◌≡◌, ◌≢◌, ◌↔◌, ◌⊎◌, inl, inr, refl, List, [], ◌∷◌, Bytes, Bool-cases, true, false, arith,
  ◌≤◌,
}
use afpfs_ng.Did.Cache.{
  str_eq, is_expired, Found, onto, find_later, find_second, search_cache, find_dirid_by_fullname,
  remove_name, add_did_cache_entry,
}
use afpfs_ng.Volume.{Volume, World, CacheEntry}

pub str_eq_iff : (a b : Bytes) → (str_eq a b ≡ true) ↔ (a ≡ b)
unfolding str_eq
str_eq_iff (x ∷ a) (y ∷ b) = ground (arith, str_eq_iff a b)
str_eq_iff _ _ = ground arith

-- Some entry of the cache has this name and ID, and has not expired.
abbrev pub HasFresh : ℕ → Bytes → ℕ → List CacheEntry → Type 0
HasFresh time path did [] = ⊥
HasFresh time path did (e ∷ es) =
    ((e.dirname ≡ path) × (e.did ≡ did) × (is_expired time e ≡ false)) ⊎ HasFresh time path did es

-- A search answers 0, or what such an entry says.
abbrev Answers : ℕ → Bytes → Found → List CacheEntry → Type 0
Answers time path f cache = (f.did ≡ 0) ⊎ HasFresh time path f.did cache

find_later-Answers :
    (time : ℕ) (path : Bytes) (n : ℕ) (front : List CacheEntry) (prev : CacheEntry)
    (rest : List CacheEntry)
    → is_expired time prev ≡ false
    → Answers time path (find_later time path n front prev rest) (prev ∷ rest)
unfolding find_later
find_later-Answers time path n front prev [] h = inl refl
find_later-Answers time path n front prev (p ∷ ps) h = ground (
  arith,
  str_eq_iff prev.dirname path,
  str_eq_iff p.dirname path,
  find_later-Answers time path (n + 1) front prev ps h,
  find_later-Answers time path n (prev ∷ front) p ps,
)

find_second-Answers :
    (time : ℕ) (path : Bytes) (n : ℕ) (prev : CacheEntry) (rest : List CacheEntry)
    → Answers time path (find_second time path n prev rest) rest
unfolding find_second
find_second-Answers time path n prev [] = inl refl
find_second-Answers time path n prev (p ∷ []) =
    ground (arith, str_eq_iff p.dirname path, find_later-Answers time path n (prev ∷ []) p [])
find_second-Answers time path n prev (p ∷ q ∷ ps) = ground (
  arith,
  str_eq_iff p.dirname path,
  find_second-Answers time path (n + 1) q ps,
  find_later-Answers time path n (prev ∷ []) p (q ∷ ps),
)

search_cache-Answers :
    (time : ℕ) (path : Bytes) (cache : List CacheEntry)
    → Answers time path (search_cache time path cache) cache
unfolding search_cache
search_cache-Answers time path [] = inl refl
search_cache-Answers time path (p ∷ []) = ground (arith, str_eq_iff p.dirname path)
search_cache-Answers time path (p ∷ q ∷ ps) = ground (
  arith,
  str_eq_iff p.dirname path,
  find_second-Answers time path 1 q ps,
  find_second-Answers time path 0 p (q ∷ ps),
)

-- `find_dirid_by_fullname` answers 0, or the ID that an entry of the cache has for exactly this
-- path, an entry that is not more than 10 seconds old.
pub find_dirid_sound :
    (w : World) (path : Bytes) (v : Volume)
    → ((find_dirid_by_fullname w path v).0 ≡ 0)
      ⊎ HasFresh (w.now v.sent) path (find_dirid_by_fullname w path v).0 v.did_cache
unfolding find_dirid_by_fullname
find_dirid_sound w path v = search_cache-Answers (w.now v.sent) path v.did_cache

-- The first list is what is left of the second when some of its nodes are taken out.
pub data Kept : List CacheEntry → List CacheEntry → Type 0 where
  done : Kept [] []
  keep : {xs ys : List CacheEntry} (x : CacheEntry) → Kept xs ys → Kept (x ∷ xs) (x ∷ ys)
  skip : {xs ys : List CacheEntry} (y : CacheEntry) → Kept xs ys → Kept xs (y ∷ ys)

Kept-refl : (xs : List CacheEntry) → Kept xs xs
Kept-refl [] = done
Kept-refl (x ∷ xs) = keep x (Kept-refl xs)

Kept-trans : {xs ys zs : List CacheEntry} → Kept xs ys → Kept ys zs → Kept xs zs
Kept-trans h done = h
Kept-trans h (skip y k) = skip y (Kept-trans h k)
Kept-trans (keep x h) (keep _ k) = keep x (Kept-trans h k)
Kept-trans (skip x h) (keep _ k) = skip x (Kept-trans h k)

Kept-onto :
    (front : List CacheEntry) {xs ys : List CacheEntry}
    → Kept xs ys
    → Kept (onto front xs) (onto front ys)
unfolding onto
Kept-onto [] h = h
Kept-onto (e ∷ front) h = Kept-onto front (keep e h)

find_later-Kept :
    (time : ℕ) (path : Bytes) (n : ℕ) (front : List CacheEntry) (prev : CacheEntry)
    (rest : List CacheEntry)
    → Kept (find_later time path n front prev rest).cache (onto front (prev ∷ rest))
unfolding find_later onto
find_later-Kept time path n front prev [] = Kept-refl (onto front (prev ∷ []))
find_later-Kept time path n front prev (p ∷ ps) =
    let cut = Kept-onto front (keep prev (skip p (Kept-refl ps))) in
    elim (Bool-cases (is_expired time p)) [
      | inl old ↦ elim (Bool-cases (str_eq prev.dirname path)) [
        | inl same ↦ rw (old, find_later) (rw same cut)
        | inr other ↦
            rw (old, find_later)
              (rw other (Kept-trans (find_later-Kept time path (n + 1) front prev ps) cut))
      ]
      | inr fresh ↦ elim (Bool-cases (str_eq p.dirname path)) [
        | inl same ↦ rw (fresh, find_later) (rw same (Kept-refl (onto front (prev ∷ p ∷ ps))))
        | inr other ↦
            rw (fresh, find_later) (rw other (find_later-Kept time path n (prev ∷ front) p ps))
      ]
    ]

find_second-Kept :
    (time : ℕ) (path : Bytes) (n : ℕ) (prev : CacheEntry) (rest : List CacheEntry)
    → Kept (find_second time path n prev rest).cache (prev ∷ rest)
unfolding find_second onto
find_second-Kept time path n prev [] = Kept-refl (prev ∷ [])
find_second-Kept time path n prev (p ∷ []) = elim (Bool-cases (is_expired time p)) [
  | inl old ↦ rw (old, find_second) (skip prev (skip p done))
  | inr fresh ↦ elim (Bool-cases (str_eq p.dirname path)) [
    | inl same ↦ rw (fresh, find_second) (rw same (Kept-refl (prev ∷ p ∷ [])))
    | inr other ↦ rw (fresh, find_second) (rw other (find_later-Kept time path n (prev ∷ []) p []))
  ]
]
find_second-Kept time path n prev (p ∷ q ∷ ps) = elim (Bool-cases (is_expired time p)) [
  | inl old ↦ elim (Bool-cases (str_eq p.dirname path)) [
    | inl same ↦ rw (old, find_second) (rw same (skip prev (skip p (Kept-refl (q ∷ ps)))))
    | inr other ↦
        rw (old, find_second)
          (rw other (skip prev (skip p (find_second-Kept time path (n + 1) q ps))))
  ]
  | inr fresh ↦ elim (Bool-cases (str_eq p.dirname path)) [
    | inl same ↦ rw (fresh, find_second) (rw same (Kept-refl (prev ∷ p ∷ q ∷ ps)))
    | inr other ↦
        rw (fresh, find_second) (rw other (find_later-Kept time path n (prev ∷ []) p (q ∷ ps)))
  ]
]

-- What is left where the second node has expired.
find_second_old :
    (time : ℕ) (path : Bytes) (n : ℕ) (a b : CacheEntry) (rest : List CacheEntry)
    → is_expired time b ≡ true
    → Kept (find_second time path n a (b ∷ rest)).cache rest
unfolding find_second
find_second_old time path n a b [] old = rw (old, find_second) done
find_second_old time path n a b (q ∷ ps) old = elim (Bool-cases (str_eq b.dirname path)) [
  | inl same ↦ rw (old, find_second) (rw same (Kept-refl (q ∷ ps)))
  | inr other ↦ rw (old, find_second) (rw other (find_second-Kept time path (n + 1) q ps))
]

-- A search may lose an entry that has not expired: where the second entry has expired and the first
-- has not, and another path than the first entry's is looked up, what is left of the cache are
-- entries from behind these two, in their order.
pub search_cache-drops :
    (time : ℕ) (path : Bytes) (a b : CacheEntry) (rest : List CacheEntry)
    → is_expired time a ≡ false
    → a.dirname ≢ path
    → is_expired time b ≡ true
    → Kept (search_cache time path (a ∷ b ∷ rest)).cache rest
unfolding search_cache
search_cache-drops time path a b rest fresh ne old =
    let other : str_eq a.dirname path ≡ false = ground (arith, str_eq_iff a.dirname path) in
    rw (fresh, search_cache) (rw other (find_second_old time path 0 a b rest old))

remove_name-Answers :
    (time : ℕ) (path name : Bytes) (did : ℕ) (cache : List CacheEntry)
    → HasFresh time path did (remove_name name cache).0
    → HasFresh time path did cache
unfolding remove_name
remove_name-Answers time path name did [] h = h
remove_name-Answers time path name did (e ∷ es) h =
    ground (arith, remove_name-Answers time path name did es)

search_cache_head :
    (time : ℕ) (path : Bytes) (e : CacheEntry) (es : List CacheEntry)
    → e.dirname ≡ path
    → is_expired time e ≡ false
    → ((search_cache time path (e ∷ es)).did ≡ e.did)
      × ((search_cache time path (e ∷ es)).cache ≡ e ∷ es)
unfolding search_cache
search_cache_head time path e [] same fresh = ground (arith, str_eq_iff e.dirname path)
search_cache_head time path e (q ∷ ps) same fresh = ground (arith, str_eq_iff e.dirname path)

-- What was added last for a path is found for 10 seconds, whatever else the cache holds, as long as
-- the cache is as the addition left it; and finding it leaves the cache so.
pub find_dirid-add :
    (w : World) (path : Bytes) (did : ℕ) (v : Volume) (v' : Volume)
    → v'.did_cache ≡ (add_did_cache_entry w did path v).1.did_cache
    → w.now v'.sent ≤ w.now v.sent + 10
    → ((find_dirid_by_fullname w path v').0 ≡ did)
      × ((find_dirid_by_fullname w path v').1.did_cache ≡ v'.did_cache)
unfolding find_dirid_by_fullname add_did_cache_entry
find_dirid-add w path did v v' e h =
    rw e (search_cache_head (w.now v'.sent) path _ v.did_cache refl (ground arith))
