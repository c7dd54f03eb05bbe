-- ===== src/Proto/Codes.antt =====
-- include/afp_protocol.h: function codes, bitmap bits and result codes.
use afpfs_ng.Common.{ℕ, ◌==◌, bit_and, Bool, true, false, not}

-- enum AFPFunction, the codes that the client sends.
pub data Function : Type 0 where
  byte_range_lock close_vol close_fork create_dir create_file delete enumerate flush : Function
  flush_fork get_srvr_parms get_vol_parms map_id map_name move_and_rename open_vol : Function
  open_fork read rename set_dir_parms set_file_parms set_fork_parms write : Function
  get_file_dir_parms set_file_dir_parms get_user_info get_srvr_msg open_dt get_icon : Function
  add_comment get_comment byte_range_lock_ext read_ext write_ext enumerate_ext2 : Function
  sync_dir sync_fork zzzzz : Function

abbrev pub code : Function → ℕ
code byte_range_lock = 1
code close_vol = 2
code close_fork = 4
code create_dir = 6
code create_file = 7
code delete = 8
code enumerate = 9
code flush = 10
code flush_fork = 11
code get_srvr_parms = 16
code get_vol_parms = 17
code map_id = 21
code map_name = 22
code move_and_rename = 23
code open_vol = 24
code open_fork = 26
code read = 27
code rename = 28
code set_dir_parms = 29
code set_file_parms = 30
code set_fork_parms = 31
code write = 33
code get_file_dir_parms = 34
code set_file_dir_parms = 35
code get_user_info = 37
code get_srvr_msg = 38
code open_dt = 48
code get_icon = 51
code add_comment = 56
code get_comment = 58
code byte_range_lock_ext = 59
code read_ext = 60
code write_ext = 61
code enumerate_ext2 = 68
code sync_dir = 78
code sync_fork = 79
code zzzzz = 122

-- `bitmap & bit`, as a test.
abbrev pub has : ℕ → ℕ → Bool
has bitmap bit = not (bit_and bitmap bit == 0)

-- The file and directory bits shared by both bitmaps.
abbrev pub attribute_bit : ℕ
attribute_bit = 0x1

abbrev pub parent_dir_id_bit : ℕ
parent_dir_id_bit = 0x2

abbrev pub create_date_bit : ℕ
create_date_bit = 0x4

abbrev pub mod_date_bit : ℕ
mod_date_bit = 0x8

abbrev pub backup_date_bit : ℕ
backup_date_bit = 0x10

abbrev pub finder_info_bit : ℕ
finder_info_bit = 0x20

abbrev pub long_name_bit : ℕ
long_name_bit = 0x40

abbrev pub short_name_bit : ℕ
short_name_bit = 0x80

abbrev pub node_id_bit : ℕ
node_id_bit = 0x100

abbrev pub offspring_count_bit : ℕ
offspring_count_bit = 0x200

abbrev pub owner_id_bit : ℕ
owner_id_bit = 0x400

abbrev pub group_id_bit : ℕ
group_id_bit = 0x800

abbrev pub access_rights_bit : ℕ
access_rights_bit = 0x1000

abbrev pub utf8_name_bit : ℕ
utf8_name_bit = 0x2000

abbrev pub unix_privs_bit : ℕ
unix_privs_bit = 0x8000

-- The bits of files alone.
abbrev pub data_fork_len_bit : ℕ
data_fork_len_bit = 0x200

abbrev pub rsrc_fork_len_bit : ℕ
rsrc_fork_len_bit = 0x400

abbrev pub ext_data_fork_len_bit : ℕ
ext_data_fork_len_bit = 0x800

abbrev pub launch_limit_bit : ℕ
launch_limit_bit = 0x1000

abbrev pub ext_rsrc_fork_len_bit : ℕ
ext_rsrc_fork_len_bit = 0x4000

-- The result of a request: the codes that the client tells apart, the -1 of a call that was not
-- made, and any other.
pub data Code : Type 0 where
  no_err not_sent access_denied bitmap_err cant_rename deny_conflict dir_not_empty disk_full : Code
  eof_err file_busy flat_vol item_not_found lock_err misc_err no_more_locks object_exists : Code
  object_not_found param_err range_not_locked call_not_supported object_type_err : Code
  too_many_files_open dir_not_found vol_locked object_locked other : Code

-- `rc==0`.
abbrev pub is_no_err : Code → Bool
is_no_err no_err = true
is_no_err _ = false
