-- ===== src/Proto/Peer.antt =====
-- A server's reading of the requests, field by field as the AFP reference lays them out.
use afpfs_ng.Common.{ℕ, ◌==◌, not, none, if◌then◌else◌}
use afpfs_ng.Names.{Encoding}
use afpfs_ng.Names.Paths.{read_path}
use afpfs_ng.Proto.Calls.{
  Call, delete, read, read_ext, get_file_dir_parms, create_file, write, write_ext, sync_fork,
  close_fork, flush_fork, open_fork, byte_range_lock, byte_range_lock_ext, sync_dir,
  move_and_rename, rename, create_dir, enumerate, enumerate_ext2, close_vol, flush, get_vol_parms,
  get_user_info, map_id, open_dt, get_comment,
}
use afpfs_ng.Wire.{Reader, ◌>>=◌, pure, u8, u16, u32, u64, rest_of}

-- The arguments of function `f`, whose second byte was `b`.
unfoldable pub arguments : Encoding → ℕ → ℕ → Reader Call
arguments enc f b =
    if f == 1
    then (do k ← u16; o ← u32; l ← u32; pure (byte_range_lock b k o l))
    else if f == 2
    then (do v ← u16; pure (close_vol v))
    else if f == 4
    then (do k ← u16; pure (close_fork k))
    else if f == 6
    then (do v ← u16; d ← u32; p ← read_path enc; pure (create_dir v d p))
    else if f == 7
    then (do v ← u16; d ← u32; p ← read_path enc; pure (create_file v b d p))
    else if f == 8
    then (do v ← u16; d ← u32; p ← read_path enc; pure (delete v d p))
    else if f == 9
    then (do
      v ← u16
      d ← u32
      fb ← u16
      db ← u16
      r ← u16
      s ← u16
      m ← u16
      p ← read_path enc
      pure (enumerate v d fb db r s p))
    else if f == 10
    then (do v ← u16; pure (flush v))
    else if f == 11
    then (do k ← u16; pure (flush_fork k))
    else if f == 17
    then (do v ← u16; m ← u16; pure (get_vol_parms v m))
    else if f == 21
    then (do i ← u32; pure (map_id b i))
    else if f == 23
    then (do
      v ← u16
      s ← u32
      d ← u32
      p ← read_path enc
      q ← read_path enc
      n ← read_path enc
      pure (move_and_rename v s d p q n))
    else if f == 26
    then (do
      v ← u16
      d ← u32
      m ← u16
      a ← u16
      p ← read_path enc
      pure (open_fork (not (b == 0)) v d a p))
    else if f == 27
    then (do k ← u16; o ← u32; c ← u32; m ← u8; n ← u8; pure (read k o c))
    else if f == 28
    then (do v ← u16; d ← u32; p ← read_path enc; q ← read_path enc; pure (rename v d p q))
    else if f == 33
    then (do k ← u16; o ← u32; c ← u32; x ← rest_of; pure (write k o c x))
    else if f == 34
    then (do
      v ← u16
      d ← u32
      fb ← u16
      db ← u16
      p ← read_path enc
      pure (get_file_dir_parms v d fb db p))
    else if f == 37
    then (do u ← u32; m ← u16; pure (get_user_info u m))
    else if f == 48
    then (do v ← u16; pure (open_dt v))
    else if f == 58
    then (do t ← u16; d ← u32; p ← read_path enc; pure (get_comment t d p))
    else if f == 59
    then (do k ← u16; o ← u64; l ← u64; pure (byte_range_lock_ext b k o l))
    else if f == 60
    then (do k ← u16; o ← u64; c ← u64; pure (read_ext k o c))
    else if f == 61
    then (do k ← u16; o ← u64; c ← u64; x ← rest_of; pure (write_ext k o c x))
    else if f == 68
    then (do
      v ← u16
      d ← u32
      fb ← u16
      db ← u16
      r ← u16
      s ← u32
      m ← u32
      p ← read_path enc
      pure (enumerate_ext2 v d fb db r s p))
    else if f == 78
    then (do v ← u16; d ← u32; pure (sync_dir v d))
    else if f == 79
    then (do v ← u16; k ← u16; pure (sync_fork v k))
    else λ bs. none

-- A whole request.
unfoldable pub understood : Encoding → Reader Call
unfolding arguments u8
understood enc = do f ← u8; b ← u8; arguments enc f b
