-- ===== src/Tests/Volumes.antt =====
-- The volume: the cache of directory IDs, the mapping of users, forks, locks and transfers.
use afpfs_ng.Common.{[], ◌∷◌, Bytes, false, ◌≡◌, ◌⊎◌, ◌+◌, refl, arith, length, take, val}
use afpfs_ng.Did.Cache.{find_dirid_by_fullname, search_cache, add_did_cache_entry}
use afpfs_ng.Did.Lookup.{walk}
use afpfs_ng.Did.Sound.{HasFresh, Kept, find_dirid_sound, find_dirid-add, search_cache-drops}
use afpfs_ng.Did.Walk.{Serves, walk-resolve, walk-missing}
use afpfs_ng.LowLevel.Locks.{ll_handle_locking, handle_locking-refused}
use afpfs_ng.LowLevel.Release.{ll_read-unlocks}
use afpfs_ng.LowLevel.Stored.{put, stored, ll_write-stored}
use afpfs_ng.LowLevel.Wrapped.{four_gb, ll_write-wrapped}
use afpfs_ng.LowLevel.Transfer.{ll_read, ll_write}
use afpfs_ng.Proto.Calls.{byte_range_lock_ext, read_ext}
use afpfs_ng.Volume.{Volume}
use afpfs_ng.Volume.Forks.{remove_fork_list, closing, remove_fork_list-closes}
use afpfs_ng.Volume.Users.{IsDetected, afp_detect_mapping, detect_mapping-IsDetected}
use afpfs_ng.Tests.Data.{file, volume, granting, refusing, serving, tree, entry}

abbrev dir : Bytes
dir = b'/' ∷ b'd' ∷ []

abbrev cached : Volume
cached = (add_did_cache_entry granting 17 dir volume).1

find_dirid_sound_example :
    ((find_dirid_by_fullname granting dir cached).0 ≡ 0)
    ⊎ HasFresh 100 dir (find_dirid_by_fullname granting dir cached).0 cached.did_cache
find_dirid_sound_example = find_dirid_sound granting dir cached

find_dirid-add_example :
    ((find_dirid_by_fullname granting dir cached).0 ≡ 17)
    × ((find_dirid_by_fullname granting dir cached).1.did_cache ≡ cached.did_cache)
find_dirid-add_example = find_dirid-add granting dir 17 volume cached refl (omega arith)

abbrev root : Bytes
root = b'/' ∷ []

search_cache-drops_example :
    Kept
      (search_cache 100 root (entry dir 17 95 ∷ entry root 2 1 ∷ entry dir 5 1 ∷ [])).cache
      (entry dir 5 1 ∷ [])
search_cache-drops_example =
    search_cache-drops 100 root (entry dir 17 95) (entry root 2 1) (entry dir 5 1 ∷ []) refl
      (ground arith) refl

serving-Serves : Serves serving tree
serving-Serves = record {
  child = λ sent volid parent name child e. ground arith;
  missing = λ sent volid parent name e. ground arith;
}

walk-resolve_example : (walk serving 2 file 2 [] (b'/' ∷ b'd' ∷ b'/' ∷ b'f' ∷ []) volume).0 ≡ 17
walk-resolve_example =
    walk-resolve serving tree serving-Serves (b'f' ∷ []) (ground arith) ((b'd' ∷ []) ∷ []) 2 file 2
      17 [] volume (omega arith) (ground arith) refl

detect_mapping-IsDetected_example :
    IsDetected 501 (afp_detect_mapping granting (b'm' ∷ b'e' ∷ []) volume).1
detect_mapping-IsDetected_example =
    detect_mapping-IsDetected granting (b'm' ∷ b'e' ∷ []) volume refl

remove_fork_list-closes_example :
    ((remove_fork_list granting volume).1.open_forks ≡ [])
    × ((remove_fork_list granting volume).1.sent ≡ closing (file ∷ []) [])
remove_fork_list-closes_example = remove_fork_list-closes granting volume

ll_write-stored_example :
    let r = ll_write granting (1 ∷ 2 ∷ 3 ∷ []) 10 7 volume in
    (r.0.0 ≡ val 0)
    × ((r.0.1 ≡ 0) ⊎ (r.0.1 ≡ 3))
    × (stored 7 r.1.sent (λ i. 0) 12 ≡ put 10 (take r.0.1 (1 ∷ 2 ∷ 3 ∷ [])) (λ i. 0) 12)
unfolding stored
ll_write-stored_example =
    ll_write-stored granting (1 ∷ 2 ∷ 3 ∷ []) 10 7 volume (λ i. 0) 12 (omega arith) (omega arith)
      (omega arith)

abbrev old_volume : Volume
old_volume = record volume { av_number = 22 }

ll_write-wrapped_example :
    ll_write granting (1 ∷ 2 ∷ 3 ∷ []) (10 + four_gb) 7 old_volume
    ≡ ll_write granting (1 ∷ 2 ∷ 3 ∷ []) 10 7 old_volume
ll_write-wrapped_example = ll_write-wrapped granting (1 ∷ 2 ∷ 3 ∷ []) 10 7 old_volume (omega arith)

ll_read-unlocks_example :
    (ll_read granting 4 10 7 volume).1.sent
    ≡ byte_range_lock_ext 1 7 10 4 ∷ read_ext 7 10 4 ∷ byte_range_lock_ext 0 7 10 4 ∷ []
ll_read-unlocks_example = ll_read-unlocks granting 4 10 7 volume refl refl

handle_locking-refused_example :
    ((ll_handle_locking refusing 7 10 4 volume).0 ≡ false)
    × (length (ll_handle_locking refusing 7 10 4 volume).1.sent ≡ 10 + 0)
handle_locking-refused_example =
    handle_locking-refused refusing 7 10 4 volume refl (λ sent ext f o s. ground arith)

walk-missing_example :
    (walk serving 3 file 2 [] (b'/' ∷ b'd' ∷ b'/' ∷ b'e' ∷ b'/' ∷ b'f' ∷ []) volume).0 ≡ 17
walk-missing_example =
    walk-missing serving tree serving-Serves (b'f' ∷ []) (ground arith) (b'd' ∷ []) (b'e' ∷ []) 0
      file 2 17 [] volume (ground arith) (ground arith) refl refl
