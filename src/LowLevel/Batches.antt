-- ===== src/LowLevel/Batches.antt =====
-- `ll_readdir` against a server that lists a directory in batches.
use afpfs_ng.Common.{
  ℕ, zero, suc, ◌+◌, ◌%◌, ◌<◌, ◌≡◌, refl, sym, ap, ◌∙◌, List, [], ◌∷◌, ◌++◌, append-nil,
  append_assoc, Bytes, Bool, true, false, none, some, length, length-append, arith, val,
}
use afpfs_ng.LowLevel.Listing.{index_limit, list_from, list_call, ask_again, next_of, read_batches}
use afpfs_ng.LowLevel.Locks.{has_ext}
use afpfs_ng.Proto.Codes.{no_err, object_not_found}
use afpfs_ng.Volume.{Volume, World, FileInfo, request}

-- The server answers a request from an index with one entry at least of those from there on, in
-- their order, and denies an index behind the last. It does so at any time.
pub record Enumerates (w : World) (resource : Bool) (dirid : ℕ) (name : Bytes)
    (entries : List FileInfo) : Type 0 where
  pub at_end :
      (u : Volume)
      → (w.peer u.sent (list_from u resource dirid (length entries + 1) name)).code
        ≡ object_not_found
  pub inside :
      (u : Volume) (before : List FileInfo) (x : FileInfo) (after : List FileInfo)
      → entries ≡ before ++ (x ∷ after)
      → let r = w.peer u.sent (list_from u resource dirid (length before + 1) name) in
        (e : FileInfo) × (es : List FileInfo) × (rest : List FileInfo) × (r.code ≡ no_err)
        × (r.entries ≡ e ∷ es)
        × (x ∷ after ≡ e ∷ (es ++ rest))

mod_limit : (ext : Bool) (index : ℕ) → index < index_limit ext → index % index_limit ext ≡ index
mod_limit true index h = omega (arith, h)
mod_limit false index h = omega (arith, h)

-- An index that the request can hold comes as it is.
list_call-list_from :
    (v : Volume) (resource : Bool) (dirid index : ℕ) (name : Bytes)
    → index < index_limit (has_ext v)
    → list_call v resource dirid index name ≡ list_from v resource dirid index name
unfolding list_call
list_call-list_from v resource dirid index name h =
    ap (λ i. list_from v resource dirid i name) (mod_limit (has_ext v) index h)

module _ (w : World) (resource : Bool) (dirid : ℕ) (name : Bytes) (entries : List FileInfo)
    (server : Enumerates w resource dirid name entries) where
  last_batch :
      (fuel : ℕ) (v : Volume)
      → length entries + 1 < index_limit (has_ext v)
      → (read_batches w (suc fuel) resource dirid (length entries + 1) name entries v).0
        ≡ some (val 0, entries)
  unfolding read_batches next_of
  last_batch fuel v small =
      let same = list_call-list_from v resource dirid (length entries + 1) name small in
      let denied : (w.peer v.sent (list_call v resource dirid (length entries + 1) name)).code
          ≡ object_not_found =
        ap (λ c. (w.peer v.sent c).code) same ∙ server.at_end v in
      ground (arith, denied, append-nil entries)

  one_batch :
      (fuel : ℕ) (before : List FileInfo) (e : FileInfo) (es : List FileInfo) (v : Volume)
      → let r = request w (list_call v resource dirid (length before + 1) name) v in
        r.0.code ≡ no_err
        → r.0.entries ≡ e ∷ es
        → read_batches w (suc fuel) resource dirid (length before + 1) name before v
          ≡ read_batches w fuel resource dirid
              (length (before ++ (e ∷ es)) + 1)
              name
              (before ++ (e ∷ es))
              r.1
  unfolding read_batches next_of
  one_batch fuel before e es v ok got =
      let n : length before + 1 + length (e ∷ es) ≡ length (before ++ (e ∷ es)) + 1 =
        omega (arith, length-append before (e ∷ es)) in
      rw (sym n) (rw (ok, got, read_batches) (rw ok refl))

  lists_rest :
      (fuel : ℕ) (before rest : List FileInfo) (v : Volume)
      → entries ≡ before ++ rest
      → length rest < fuel
      → length entries + 1 < index_limit (has_ext v)
      → (read_batches w fuel resource dirid (length before + 1) name before v).0
        ≡ some (val 0, entries)
  lists_rest zero before rest v split enough small = absurd (omega arith)
  lists_rest (suc fuel) before [] v split enough small =
      rw (sym (append-nil before), sym split) (last_batch fuel v small)
  lists_rest (suc fuel) before (x ∷ after) v split enough small =
      let (e, es, rest, ok, got, order) = server.inside v before x after split in
      let bound : length before + 1 < index_limit (has_ext v) =
        omega (arith, small, ap length split, length-append before (x ∷ after)) in
      let call = list_call-list_from v resource dirid (length before + 1) name bound in
      let reply = ap (λ c. w.peer v.sent c) call in
      let sizes : length rest < fuel =
        omega (arith, enough, ap length order, length-append es rest) in
      let split' : entries ≡ (before ++ (e ∷ es)) ++ rest =
        split ∙ (ap (λ t. before ++ t) order ∙ sym (append_assoc before (e ∷ es) rest)) in
      ap (λ o. o.0)
        (one_batch fuel before e es v (ap (λ r. r.code) reply ∙ ok)
          (ap (λ r. r.entries) reply ∙ got))
      ∙ lists_rest fuel (before ++ (e ∷ es)) rest _ split' sizes small

  -- The loop of `ll_readdir` ends and finds every entry of the directory once, in the order of the
  -- server, from a server that answers from each index on with one entry at least, however many at
  -- a time, and denies the index behind the last; one round more than there are entries is enough.
  -- The index behind the last fits the request: it is below 65536 before AFP 3.0, and else below 2
  -- ^ 32.
  pub read_batches-entries :
      (fuel : ℕ) (v : Volume)
      → length entries < fuel
      → length entries + 1 < index_limit (has_ext v)
      → (read_batches w fuel resource dirid 1 name [] v).0 ≡ some (val 0, entries)
  read_batches-entries fuel v enough small = lists_rest fuel [] entries v refl enough small

-- The loop of `ll_readdir` never ends against a server that answers its request, from then on, with
-- a result that the loop does not list: no number of rounds is enough.
pub read_batches-unlisted :
    (w : World) (resource : Bool) (dirid startindex : ℕ) (name : Bytes) (files : List FileInfo)
    → ((u : Volume)
        → next_of (w.peer u.sent (list_call u resource dirid startindex name)).code ≡ ask_again)
    → (fuel : ℕ) (v : Volume)
    → (read_batches w fuel resource dirid startindex name files v).0 ≡ none
unfolding read_batches
read_batches-unlisted w resource dirid startindex name files unlisted zero v = refl
read_batches-unlisted w resource dirid startindex name files unlisted (suc fuel) v =
    rw (unlisted v, read_batches)
      (read_batches-unlisted w resource dirid startindex name files unlisted fuel _)
