-- ===== src/Proto/RoundTrip.antt =====
-- The server understands each request as the client meant it.
use afpfs_ng.Common.{◌<◌, ◌≡◌, length}
use afpfs_ng.Names.Paths.{IsPath}
use afpfs_ng.Proto.Calls.{
  Call, delete, read, read_ext, get_file_dir_parms, create_file, write, write_ext, sync_fork,
  close_fork, flush_fork, open_fork, byte_range_lock, byte_range_lock_ext, sync_dir,
  move_and_rename, rename, create_dir, enumerate, enumerate_ext2, close_vol, flush, get_vol_parms,
  get_user_info, map_id, open_dt, get_comment, set_file_parms, set_file_dir_parms, set_dir_parms,
  set_fork_parms, add_comment,
}

-- The paths of a call are paths. The calls whose last field is a parameter block or a comment, and
-- `set_fork_parms`, are not among those that Proto.Peer reads.
abbrev pub HasPaths : Call → Type 0
HasPaths (delete v d p) = IsPath p
HasPaths (get_file_dir_parms v d fb db p) = IsPath p
HasPaths (create_file v fl d p) = IsPath p
HasPaths (set_file_parms v d b p x) = ⊥
HasPaths (set_file_dir_parms v d b p x) = ⊥
HasPaths (set_dir_parms v d b p x) = ⊥
HasPaths (set_fork_parms f b l) = ⊥
HasPaths (add_comment t d p c) = ⊥
HasPaths (open_fork r v d a p) = IsPath p
HasPaths (move_and_rename v s d p q n) = IsPath p × IsPath q × IsPath n
HasPaths (rename v d p q) = IsPath p × IsPath q
HasPaths (create_dir v d p) = IsPath p
HasPaths (enumerate v d fb db r s p) = IsPath p
HasPaths (enumerate_ext2 v d fb db r s p) = IsPath p
HasPaths (get_comment dt d p) = IsPath p
HasPaths _ = Unit

-- The arguments fit their fields, as the types of the parameters make them; a write carries as many
-- bytes as it says.
abbrev pub InRange : Call → Type 0
InRange (delete v d p) = (v < 65536) × (d < 4294967296)
InRange (read f o c) = (f < 65536) × (o < 4294967296) × (c < 4294967296)
InRange (read_ext f o c) = (f < 65536) × (o < 18446744073709551616) × (c < 18446744073709551616)
InRange (get_file_dir_parms v d fb db p) =
    (v < 65536) × (d < 4294967296) × (fb < 65536) × (db < 65536)
InRange (create_file v fl d p) = (v < 65536) × (fl < 256) × (d < 4294967296)
InRange (write f o r x) = (f < 65536) × (o < 4294967296) × (r < 4294967296) × (length x ≡ r)
InRange (write_ext f o r x) =
    (f < 65536) × (o < 18446744073709551616) × (r < 18446744073709551616) × (length x ≡ r)
InRange (sync_fork v f) = (v < 65536) × (f < 65536)
InRange (close_fork f) = f < 65536
InRange (flush_fork f) = f < 65536
InRange (open_fork r v d a p) = (v < 65536) × (d < 4294967296) × (a < 65536)
InRange (byte_range_lock fl f o l) = (fl < 256) × (f < 65536) × (o < 4294967296) × (l < 4294967296)
InRange (byte_range_lock_ext fl f o l) =
    (fl < 256) × (f < 65536) × (o < 18446744073709551616) × (l < 18446744073709551616)
InRange (sync_dir v d) = (v < 65536) × (d < 4294967296)
InRange (move_and_rename v s d p q n) = (v < 65536) × (s < 4294967296) × (d < 4294967296)
InRange (rename v d p q) = (v < 65536) × (d < 4294967296)
InRange (create_dir v d p) = (v < 65536) × (d < 4294967296)
InRange (enumerate v d fb db r s p) =
    (v < 65536) × (d < 4294967296) × (fb < 65536) × (db < 65536) × (r < 65536) × (s < 65536)
InRange (enumerate_ext2 v d fb db r s p) =
    (v < 65536) × (d < 4294967296) × (fb < 65536) × (db < 65536) × (r < 65536) × (s < 4294967296)
InRange (close_vol v) = v < 65536
InRange (flush v) = v < 65536
InRange (get_vol_parms v b) = (v < 65536) × (b < 65536)
InRange (get_user_info u b) = (u < 4294967296) × (b < 65536)
InRange (map_id s i) = (s < 256) × (i < 4294967296)
InRange (open_dt v) = v < 65536
InRange (get_comment dt d p) = (dt < 65536) × (d < 4294967296)
InRange _ = ⊥
