-- ===== src/Server/Mounts.antt =====
-- lib/afp.c: how the volumes of a server are unmounted, and the list of the servers. A server is
-- its address, a number. Each volume records its own requests.
use afpfs_ng.Common.{
  ℕ, List, [], ◌∷◌, ◌++◌, Bool, true, false, not, ◌||◌, ◌==◌, Option, none, some, if◌then◌else◌,
}
use afpfs_ng.Proto.Calls.{close_vol, flush}
use afpfs_ng.Volume.{Volume, World, request}
use afpfs_ng.Volume.Forks.{remove_fork_list}

-- AFP_VOLUME_*.
pub data Mounted : Type 0 where
  unmounted mounted unmounting : Mounted

-- A volume of the server: whether it is mounted, and its state. `is_cache_freed` says that its
-- cache of directory IDs points to freed entries.
pub record Mount : Type 0 where
  pub mounted : Mounted
  pub volume : Volume
  pub is_cache_freed : Bool

abbrev pub is_unmounted : Mounted → Bool
is_unmounted unmounted = true
is_unmounted mounted = false
is_unmounted unmounting = false

unfoldable pub something_is_mounted : List Mount → Bool
something_is_mounted [] = false
something_is_mounted (m ∷ ms) = not (is_unmounted m.mounted) || something_is_mounted ms

-- What is sent besides at the end: FPCloseDT and FPLogout.
pub data Farewell : Type 0 where
  close_dt : (dtrefnum : ℕ) → Farewell
  logout : Farewell

-- What comes of `afp_unmount_volume`: the volume, what is sent, whether the server is removed from
-- the list and freed, and whether the result is 0.
pub record Unmounting : Type 0 where
  pub mount : Mount
  pub farewells : List Farewell
  pub removed : Bool
  pub result : Bool

-- The volume when everything of it is closed. The results of the requests are not used.
unfoldable pub closed_volume : World → Volume → Volume
unfolding remove_fork_list
closed_volume w v =
    let flushed = (request w (flush v.volid) v).1 in
    let closed = (request w (close_vol v.volid) flushed).1 in
    record (remove_fork_list w closed).1 { dtrefnum = 0 }

-- One of the volumes of its server, which stand before and after it.
unfoldable pub afp_unmount_volume :
    World → (before : List Mount) → Mount → (after : List Mount) → Unmounting
unfolding closed_volume something_is_mounted
afp_unmount_volume w before m after =
    let kept : Unmounting = record { mount = m; farewells = []; removed = false; result = false } in
    let done : Mount = record {
      mounted = unmounted;
      volume = closed_volume w m.volume;
      is_cache_freed = true;
    } in
    let desktop : List Farewell =
      if m.volume.dtrefnum == 0 then [] else close_dt m.volume.dtrefnum ∷ [] in
    let unmounts : Unmounting =
      if something_is_mounted (before ++ (done ∷ after))
      then record { mount = done; farewells = desktop; removed = false; result = true }
      else record {
        mount = done;
        farewells = desktop ++ (logout ∷ []);
        removed = true;
        result = false;
      } in
    elim m.mounted [ mounted ↦ unmounts | unmounted ↦ kept | unmounting ↦ kept ]

-- The loop over the volumes, behind those before: `true` for its 1, and all volumes.
unfoldable pub unmount_from : World → (before after : List Mount) → Bool × List Mount
unfolding afp_unmount_volume
unmount_from w before [] = (false, before)
unmount_from w before (m ∷ after) =
    let u = afp_unmount_volume w before m after in
    let skipped = unmount_from w (before ++ (m ∷ [])) after in
    let on = unmount_from w (before ++ (u.mount ∷ [])) after in
    let stopped : Bool × List Mount = (true, before ++ (u.mount ∷ after)) in
    let next = if u.result then on else stopped in
    elim m.mounted [ mounted ↦ next | unmounted ↦ skipped | unmounting ↦ skipped ]

unfoldable pub afp_unmount_all_volumes : World → List Mount → Bool × List Mount
unfolding unmount_from
afp_unmount_all_volumes w volumes = unmount_from w [] volumes

-- The list of the servers.
unfoldable pub server_still_valid : (server : ℕ) → List ℕ → Bool
server_still_valid server [] = false
server_still_valid server (s ∷ ss) = (s == server) || server_still_valid server ss

abbrev pub add_server : (newserver : ℕ) → List ℕ → List ℕ
add_server newserver server_base = newserver ∷ server_base

-- What the list is without the server, which is freed; `none` is -1.
unfoldable pub afp_server_remove : (server : ℕ) → List ℕ → Option (List ℕ)
afp_server_remove server [] = none
afp_server_remove server (s ∷ next) =
    let later : Option (List ℕ) = elim (afp_server_remove server next) [
      | none ↦ none
      | some ss ↦ some (s ∷ ss)
    ] in
    if s == server then some next else later
