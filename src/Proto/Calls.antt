-- ===== src/Proto/Calls.antt =====
-- The requests as data: one constructor for each afp_* function, with its arguments, and the bytes
-- that the function sends.
use afpfs_ng.Common.{ℕ, ◌%◌, Bytes, Bool, take}
use afpfs_ng.Names.{Encoding}
use afpfs_ng.Proto.Dirs.{
  afp_syncdir, afp_moveandrename, afp_rename, afp_createdir, afp_enumerate, afp_enumerateext2,
}
use afpfs_ng.Proto.Files.{
  Parms, afp_delete, afp_read, afp_readext, afp_getfiledirparms, afp_createfile, afp_write,
  afp_writeext, afp_setfileparms, afp_setfiledirparms, afp_setdirparms,
}
use afpfs_ng.Proto.Forks.{
  afp_syncfork, afp_setforkparms, afp_closefork, afp_flushfork, afp_openfork, afp_byterangelock,
  afp_byterangelockext,
}
use afpfs_ng.Proto.Volumes.{
  afp_volclose, afp_flush, afp_getvolparms, afp_getuserinfo, afp_mapid, afp_opendt, afp_getcomment,
  afp_addcomment,
}

pub data Call : Type 0 where
  delete : (volid dirid : ℕ) → Bytes → Call
  read : (forkid offset count : ℕ) → Call
  read_ext : (forkid offset count : ℕ) → Call
  get_file_dir_parms : (volid did filebitmap dirbitmap : ℕ) → Bytes → Call
  create_file : (volid flag did : ℕ) → Bytes → Call
  write : (forkid offset reqcount : ℕ) → Bytes → Call
  write_ext : (forkid offset reqcount : ℕ) → Bytes → Call
  set_file_parms : (volid dirid bitmap : ℕ) → Bytes → Parms → Call
  set_file_dir_parms : (volid dirid bitmap : ℕ) → Bytes → Parms → Call
  set_dir_parms : (volid dirid bitmap : ℕ) → Bytes → Parms → Call
  sync_fork : (volid forkid : ℕ) → Call
  set_fork_parms : (forkid bitmap len : ℕ) → Call
  close_fork : (forkid : ℕ) → Call
  flush_fork : (forkid : ℕ) → Call
  open_fork : (resource : Bool) (volid dirid accessmode : ℕ) → Bytes → Call
  byte_range_lock : (flag forkid offset len : ℕ) → Call
  byte_range_lock_ext : (flag forkid offset len : ℕ) → Call
  sync_dir : (volid did : ℕ) → Call
  move_and_rename : (volid src_did dst_did : ℕ) → Bytes → Bytes → Bytes → Call
  rename : (volid dirid : ℕ) → Bytes → Bytes → Call
  create_dir : (volid dirid : ℕ) → Bytes → Call
  enumerate : (volid dirid filebitmap dirbitmap reqcount startindex : ℕ) → Bytes → Call
  enumerate_ext2 : (volid dirid filebitmap dirbitmap reqcount startindex : ℕ) → Bytes → Call
  close_vol : (volid : ℕ) → Call
  flush : (volid : ℕ) → Call
  get_vol_parms : (volid bitmap : ℕ) → Call
  get_user_info : (userid bitmap : ℕ) → Call
  map_id : (subfunction id : ℕ) → Call
  open_dt : (volid : ℕ) → Call
  get_comment : (dtrefnum did : ℕ) → Bytes → Call
  add_comment : (dtrefnum did : ℕ) → Bytes → Bytes → Call

-- What follows the DSI header.
unfoldable pub message : Encoding → Call → Bytes
unfolding afp_delete afp_read afp_readext afp_getfiledirparms afp_createfile afp_write afp_writeext
    afp_setfileparms afp_setfiledirparms afp_setdirparms afp_syncfork afp_setforkparms afp_closefork
    afp_flushfork afp_openfork afp_byterangelock afp_byterangelockext afp_syncdir afp_moveandrename
    afp_rename afp_createdir afp_enumerate afp_enumerateext2 afp_volclose afp_flush afp_getvolparms
    afp_getuserinfo afp_mapid afp_opendt afp_getcomment afp_addcomment
message enc (delete v d p) = afp_delete enc v d p
message enc (read f o c) = afp_read f o c
message enc (read_ext f o c) = afp_readext f o c
message enc (get_file_dir_parms v d fb db p) = afp_getfiledirparms enc v d fb db p
message enc (create_file v fl d p) = afp_createfile enc v fl d p
message enc (write f o r x) = afp_write f o r x
message enc (write_ext f o r x) = afp_writeext f o r x
message enc (set_file_parms v d b p x) = afp_setfileparms enc v d b p x
message enc (set_file_dir_parms v d b p x) = afp_setfiledirparms enc v d b p x
message enc (set_dir_parms v d b p x) = afp_setdirparms enc v d b p x
message enc (sync_fork v f) = afp_syncfork v f
message enc (set_fork_parms f b l) = afp_setforkparms f b l
message enc (close_fork f) = afp_closefork f
message enc (flush_fork f) = afp_flushfork f
message enc (open_fork r v d a p) = afp_openfork enc r v d a p
message enc (byte_range_lock fl f o l) = afp_byterangelock fl f o l
message enc (byte_range_lock_ext fl f o l) = afp_byterangelockext fl f o l
message enc (sync_dir v d) = afp_syncdir v d
message enc (move_and_rename v s d p q n) = afp_moveandrename enc v s d p q n
message enc (rename v d p q) = afp_rename enc v d p q
message enc (create_dir v d p) = afp_createdir enc v d p
message enc (enumerate v d fb db r s p) = afp_enumerate enc v d fb db r s p
message enc (enumerate_ext2 v d fb db r s p) = afp_enumerateext2 enc v d fb db r s p
message enc (close_vol v) = afp_volclose v
message enc (flush v) = afp_flush v
message enc (get_vol_parms v b) = afp_getvolparms v b
message enc (get_user_info u b) = afp_getuserinfo 1 u b
message enc (map_id s i) = afp_mapid s i
message enc (open_dt v) = afp_opendt v
message enc (get_comment dt d p) = afp_getcomment enc dt d p
message enc (add_comment dt d p c) = afp_addcomment enc dt d p c

-- Each argument as wide as its field; `write` carries `reqcount` bytes.
abbrev pub wrap : Call → Call
wrap (delete v d p) = delete (v % 65536) (d % 4294967296) p
wrap (read f o c) = read (f % 65536) (o % 4294967296) (c % 4294967296)
wrap (read_ext f o c) = read_ext (f % 65536) (o % 18446744073709551616) (c % 18446744073709551616)
wrap (get_file_dir_parms v d fb db p) =
    get_file_dir_parms (v % 65536) (d % 4294967296) (fb % 65536) (db % 65536) p
wrap (create_file v fl d p) = create_file (v % 65536) (fl % 256) (d % 4294967296) p
wrap (write f o r x) = write (f % 65536) (o % 4294967296) (r % 4294967296) (take r x)
wrap (write_ext f o r x) =
    write_ext (f % 65536) (o % 18446744073709551616) (r % 18446744073709551616) (take r x)
wrap (sync_fork v f) = sync_fork (v % 65536) (f % 65536)
wrap (close_fork f) = close_fork (f % 65536)
wrap (flush_fork f) = flush_fork (f % 65536)
wrap (open_fork r v d a p) = open_fork r (v % 65536) (d % 4294967296) (a % 65536) p
wrap (byte_range_lock fl f o l) =
    byte_range_lock (fl % 256) (f % 65536) (o % 4294967296) (l % 4294967296)
wrap (byte_range_lock_ext fl f o l) =
    byte_range_lock_ext (fl % 256) (f % 65536) (o % 18446744073709551616) (l % 18446744073709551616)
wrap (sync_dir v d) = sync_dir (v % 65536) (d % 4294967296)
wrap (move_and_rename v s d p q n) =
    move_and_rename (v % 65536) (s % 4294967296) (d % 4294967296) p q n
wrap (rename v d p q) = rename (v % 65536) (d % 4294967296) p q
wrap (create_dir v d p) = create_dir (v % 65536) (d % 4294967296) p
wrap (enumerate v d fb db r s p) =
    enumerate (v % 65536) (d % 4294967296) (fb % 65536) (db % 65536) (r % 65536) (s % 65536) p
wrap (enumerate_ext2 v d fb db r s p) =
    enumerate_ext2 (v % 65536) (d % 4294967296) (fb % 65536) (db % 65536) (r % 65536)
      (s % 4294967296) p
wrap (close_vol v) = close_vol (v % 65536)
wrap (flush v) = flush (v % 65536)
wrap (get_vol_parms v b) = get_vol_parms (v % 65536) (b % 65536)
wrap (get_user_info u b) = get_user_info (u % 4294967296) (b % 65536)
wrap (map_id s i) = map_id (s % 256) (i % 4294967296)
wrap (open_dt v) = open_dt (v % 65536)
wrap (get_comment dt d p) = get_comment (dt % 65536) (d % 4294967296) p
wrap c = c
