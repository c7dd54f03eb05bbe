-- ===== src/Volume.antt =====
-- The state that the calls on a volume work on: the fields of `struct afp_volume`, `struct
-- afp_server` and `struct afp_file_info` (include/afp.h) that lib/did.c, lib/lowlevel.c,
-- lib/resource.c and lib/midlevel.c use, and the exchange of requests and replies.
pub mod Forks
pub mod Users
use afpfs_ng.Common.{ℕ, List, [], ◌∷◌, Bytes, Bool, false, true, ◌||◌}
use afpfs_ng.Codepage.{Unicode}
use afpfs_ng.Names.{Encoding}
use afpfs_ng.Proto.Calls.{Call}
use afpfs_ng.Proto.Codes.{Code}

-- `struct afp_file_info`. `ptr` is its address.
pub record FileInfo : Type 0 where
  pub ptr : ℕ
  pub name : Bytes
  pub basename : Bytes
  pub did : ℕ
  pub fileid : ℕ
  pub isdir : Bool
  pub offspring : ℕ
  pub creation_date : ℕ
  pub modification_date : ℕ
  pub backup_date : ℕ
  pub attributes : ℕ
  pub uid : ℕ
  pub gid : ℕ
  pub permissions : ℕ
  pub ua_permissions : ℕ
  pub accessrights : ℕ
  pub size : ℕ
  pub resourcesize : ℕ
  pub finderinfo : Bytes
  pub resource : ℕ
  pub forkid : ℕ
  pub eof : Bool

-- The bits VOLUME_EXTRA_FLAGS_* of `extra_flags`.
pub record ExtraFlags : Type 0 where
  pub vol_chmod_known : Bool
  pub vol_chmod_broken : Bool
  pub show_appledouble : Bool
  pub vol_supports_unix : Bool
  pub no_locking : Bool
  pub ignore_unixprivs : Bool
  pub readonly : Bool

-- `struct did_cache_entry`; the time is in seconds.
pub record CacheEntry : Type 0 where
  pub dirname : Bytes
  pub did : ℕ
  pub time : ℕ

pub data Mapping : Type 0 where
  unknown common loginids : Mapping

-- A volume with its server. `attributes` has the bits that are tested; `sent` is the requests made
-- so far, the latest first.
pub record Volume : Type 0 where
  pub volid : ℕ
  pub attr_read_only : Bool
  pub attr_utf8_names : Bool
  pub attr_no_user_ids : Bool
  pub extra_flags : ExtraFlags
  pub volume_name : Bytes
  pub dtrefnum : ℕ
  pub mapping : Mapping
  pub did_cache : List CacheEntry
  pub hits : ℕ
  pub misses : ℕ
  pub expired : ℕ
  pub force_removed : ℕ
  pub open_forks : List FileInfo
  pub av_number : ℕ
  pub path_encoding : Encoding
  pub is_netatalk : Bool
  pub tx_quantum : ℕ
  pub rx_quantum : ℕ
  pub connect_time : ℕ
  pub server_uid : ℕ
  pub server_gid : ℕ
  pub server_gid_valid : Bool
  pub pw_uid : ℕ
  pub pw_gid : ℕ
  pub icon : Bytes
  pub sent : List Call

-- What comes back for a request: the result, and what the reply handlers store for their callers.
pub record Reply : Type 0 where
  pub code : Code
  pub info : FileInfo
  pub entries : List FileInfo
  pub contents : Bytes
  pub number : ℕ

-- The world outside: the server's replies and the clock, which may depend on all requests so far,
-- what an uninitialised struct holds, the conversions of lib/unicode.c, and the IDs of the process.
pub record World : Type 0 where
  pub peer : List Call → Call → Reply
  pub now : List Call → ℕ
  pub junk : FileInfo
  pub unicode : Unicode
  pub getgid : ℕ
  pub geteuid : ℕ

abbrev pub M : Type 0 → Type 0
M A = Volume → A × Volume

infixl 5 ◌>>=◌ ◌>>◌
abbrev pub ◌>>=◌ : {A B : Type 0} → M A → (A → M B) → M B
◌>>=◌ m f v = let r = m v in f r.0 r.1

abbrev pub ◌>>◌ : {A B : Type 0} → M A → M B → M B
◌>>◌ m k v = k (m v).1

abbrev pub pure : {A : Type 0} → A → M A
pure a v = (a, v)

abbrev pub get : M Volume
get v = (v, v)

abbrev pub modify : (Volume → Volume) → M (Unit {0})
modify f v = (tt, f v)

-- A request and its reply: an afp_* function up to the return of its `dsi_send`.
abbrev pub request : World → Call → M Reply
request w c v = (w.peer v.sent c, record v { sent = c ∷ v.sent })

-- The macro of include/afp.h.
abbrev pub volume_is_readonly : Volume → Bool
volume_is_readonly v = v.attr_read_only || v.extra_flags.readonly
