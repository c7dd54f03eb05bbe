-- ===== src/Volume/Forks.antt =====
-- lib/forklist.c: the forks that are open on a volume. A node is the struct that the caller owns,
-- and `ptr` its address.
use afpfs_ng.Common.{List, [], ◌∷◌, ◌==◌, if◌then◌else◌, ◌≡◌, refl}
use afpfs_ng.Proto.Calls.{Call, flush_fork, close_fork}
use afpfs_ng.Volume.{Volume, World, FileInfo, M, request}

unfoldable pub add_opened_fork : FileInfo → M (Unit {0})
add_opened_fork fp v = (tt, record v { open_forks = fp ∷ v.open_forks })

unfoldable pub unlink_fork : FileInfo → List FileInfo → List FileInfo
unlink_fork fp [] = []
unlink_fork fp (p ∷ ps) = let later = unlink_fork fp ps in if p.ptr == fp.ptr then ps else p ∷ later

unfoldable pub remove_opened_fork : FileInfo → M (Unit {0})
unfolding unlink_fork
remove_opened_fork fp v = (tt, record v { open_forks = unlink_fork fp v.open_forks })

-- The loop over the nodes, each of which is the head of the list when its turn comes.
unfoldable pub close_forks : World → List FileInfo → M (Unit {0})
close_forks w [] v = (tt, v)
close_forks w (p ∷ next) v =
    let flushed = (request w (flush_fork p.forkid) v).1 in
    let closed = (request w (close_fork p.forkid) flushed).1 in
    close_forks w next (record closed { open_forks = next })

unfoldable pub remove_fork_list : World → M (Unit {0})
unfolding close_forks
remove_fork_list w v = close_forks w v.open_forks v

-- The requests, the latest first.
abbrev pub closing : List FileInfo → List Call → List Call
closing [] sent = sent
closing (p ∷ ps) sent = closing ps (close_fork p.forkid ∷ flush_fork p.forkid ∷ sent)

close_forks_lem :
    (w : World) (forks : List FileInfo) (v : Volume)
    → v.open_forks ≡ forks
    → ((close_forks w forks v).1.open_forks ≡ [])
      × ((close_forks w forks v).1.sent ≡ closing forks v.sent)
unfolding close_forks
close_forks_lem w [] v h = (h, refl)
close_forks_lem w (p ∷ ps) v h = close_forks_lem w ps _ refl

-- `remove_fork_list` flushes and closes every open fork, one after the other from the latest opened
-- on, whatever the server answers, and leaves no fork open.
pub remove_fork_list-closes :
    (w : World) (v : Volume)
    → ((remove_fork_list w v).1.open_forks ≡ [])
      × ((remove_fork_list w v).1.sent ≡ closing v.open_forks v.sent)
unfolding remove_fork_list
remove_fork_list-closes w v = close_forks_lem w v.open_forks v refl
