-- ===== src/Tests/Data.antt =====
-- A file, replies, a volume and servers to test on.
use afpfs_ng.Common.{ℕ, [], ◌∷◌, Bytes, true, false, none, some, ◌==◌, if◌then◌else◌}
use afpfs_ng.Codepage.{Unicode}
use afpfs_ng.Did.Walk.{Tree}
use afpfs_ng.Dsi.Server.{Request, Server, block}
use afpfs_ng.Names.{long_name}
use afpfs_ng.Proto.Calls.{Call, get_file_dir_parms, byte_range_lock, byte_range_lock_ext}
use afpfs_ng.Proto.Codes.{Code, no_err, object_not_found, lock_err}
use afpfs_ng.Volume.{FileInfo, ExtraFlags, CacheEntry, unknown, Volume, Reply, World}

abbrev pub file : FileInfo
file = record {
  ptr = 1;
  name = [];
  basename = [];
  did = 2;
  fileid = 17;
  isdir = true;
  offspring = 0;
  creation_date = 0;
  modification_date = 0;
  backup_date = 0;
  attributes = 0;
  uid = 0;
  gid = 0;
  permissions = 0;
  ua_permissions = 0;
  accessrights = 0;
  size = 0;
  resourcesize = 0;
  finderinfo = [];
  resource = 0;
  forkid = 7;
  eof = false;
}

abbrev pub reply : Code → Reply
reply c = record { code = c; info = file; entries = []; contents = b'm' ∷ b'e' ∷ []; number = 501 }

abbrev pub flags : ExtraFlags
flags = record {
  vol_chmod_known = false;
  vol_chmod_broken = false;
  show_appledouble = true;
  vol_supports_unix = true;
  no_locking = false;
  ignore_unixprivs = false;
  readonly = false;
}

abbrev pub volume : Volume
volume = record {
  volid = 1;
  attr_read_only = false;
  attr_utf8_names = true;
  attr_no_user_ids = false;
  extra_flags = flags;
  volume_name = b'v' ∷ [];
  dtrefnum = 0;
  mapping = unknown;
  did_cache = [];
  hits = 0;
  misses = 0;
  expired = 0;
  force_removed = 0;
  open_forks = file ∷ [];
  av_number = 32;
  path_encoding = long_name;
  is_netatalk = true;
  tx_quantum = 2;
  rx_quantum = 512;
  connect_time = 0;
  server_uid = 0;
  server_gid = 0;
  server_gid_valid = false;
  pw_uid = 501;
  pw_gid = 20;
  icon = [];
  sent = [];
}

-- A table with no compositions.
abbrev pub plain : Unicode
plain = record { utf8_to_ucs2 = λ s. s; ucs2_to_utf8 = λ s. s; precompose = λ a b. none }

-- A server that grants what is asked, at second 100.
abbrev pub granting : World
granting = record {
  peer = λ sent c. reply no_err;
  now = λ sent. 100;
  junk = file;
  unicode = plain;
  getgid = 20;
  geteuid = 501;
}

-- A server whose forks are locked.
abbrev pub locked_call : Call → Reply
locked_call (byte_range_lock f k o l) = reply lock_err
locked_call (byte_range_lock_ext f k o l) = reply lock_err
locked_call c = reply no_err

abbrev pub refusing : World
refusing = record {
  peer = λ sent. locked_call;
  now = λ sent. 100;
  junk = file;
  unicode = plain;
  getgid = 20;
  geteuid = 501;
}

-- Every name in the root is directory 17, which is empty.
abbrev pub tree : Tree
tree parent name = if parent == 2 then some 17 else none

abbrev pub tree_call : Call → Reply
tree_call (get_file_dir_parms v d fb db p) = if d == 2 then reply no_err else reply object_not_found
tree_call c = reply no_err

abbrev pub serving : World
serving = record {
  peer = λ sent. tree_call;
  now = λ sent. 100;
  junk = file;
  unicode = plain;
  getgid = 20;
  geteuid = 501;
}

abbrev pub entry : Bytes → ℕ → ℕ → CacheEntry
entry name d t = record { dirname = name; did = d; time = t }

abbrev pub waiting_request : Request
waiting_request = record {
  ptr = 1;
  requestid = 9;
  subcommand = 27;
  wait = block;
  done_waiting = false;
  return_code = 0;
}

abbrev pub other_request : Request
other_request = record {
  ptr = 2;
  requestid = 10;
  subcommand = 27;
  wait = block;
  done_waiting = false;
  return_code = 0;
}

abbrev pub server : Server
server = record {
  valid = true;
  fd = 4;
  connected = true;
  send_locked = false;
  lastrequestid = 10;
  expectedrequestid = 10;
  command_requests = waiting_request ∷ other_request ∷ [];
  requests_pending = 2;
  tx_bytes = 0;
  next_ptr = 3;
}
