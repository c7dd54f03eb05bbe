-- ===== src/Tests/Sessions.antt =====
-- URLs, logins, and the replies about volumes and directories.
use afpfs_ng.Common.{◌≡◌, refl, [], ◌∷◌, ◌++◌, Bytes, false, some, arith, bit_and, inl, inr}
use afpfs_ng.Proto.Session.{afp_login, read_login, read_login-afp_login}
use afpfs_ng.Replies.Entries.{
  Entry, IsEntry, entries_bytes, understood, afp_enumerateext2_reply-entries,
}
use afpfs_ng.Replies.Lists.{afp_enumerateext2_reply}
use afpfs_ng.Replies.Packet.{stored}
use afpfs_ng.Replies.VolumeParams.{
  VolParams, lay_info, lay_stats, info_of, stats_of, afp_getvolparms_reply-layout,
}
use afpfs_ng.Replies.Volumes.{VolumeInfo, VolumeStats, afp_getvolparms_reply}
use afpfs_ng.Server.{pick_uam}
use afpfs_ng.Server.Mounts.{
  Mount, mounted, unmounted, something_is_mounted, afp_unmount_all_volumes,
}
use afpfs_ng.Server.Unmounts.{afp_unmount_all_volumes-unmounts}
use afpfs_ng.Server.Picked.{IsHighest, pick_uam-IsHighest}
use afpfs_ng.Tests.Data.{volume, granting}
use afpfs_ng.Tests.Files.{params, names, params-NameStands}
use afpfs_ng.Url.{Url, Libc, ok, lost, check_uamname}
use afpfs_ng.Url.Parse.{afp_default_url, afp_parse_url, earliest_part}
use afpfs_ng.Url.Fields.{IsLibc}
use afpfs_ng.Url.RoundTrip.{printed, IsPrintable, FitsBuffers, afp_parse_url-printed}
use afpfs_ng.Url.Stuck.{earliest_part-twice}
use afpfs_ng.Replies.Layout.{layout, lay_shared, lay_file, lay_end}
use afpfs_ng.Wire.{be16, be32}

-- afp://me;AUTH=X:p@@@h:548/v/f
abbrev url : Url
url = record {
  username = b'm' ∷ b'e' ∷ [];
  uamname = b'X' ∷ [];
  password = b'p' ∷ b'@' ∷ [];
  servername = b'h' ∷ [];
  port = 548;
  volumename = b'v' ∷ [];
  path = b'/' ∷ b'f' ∷ [];
}

abbrev digits : Bytes
digits = b'5' ∷ b'4' ∷ b'8' ∷ []

url-IsPrintable : IsPrintable url digits (b'f' ∷ [])
unfolding check_uamname
url-IsPrintable = record {
  is_text = ground arith;
  user_some = omega arith;
  user_colon = ground arith;
  user_at = ground arith;
  user_semicolon = ground arith;
  user_slash = ground arith;
  user_percent = ground arith;
  uam = refl;
  password_colon = ground arith;
  password_slash = ground arith;
  password_percent = ground arith;
  server_colon = ground arith;
  server_at = ground arith;
  server_slash = ground arith;
  server_percent = ground arith;
  port_digits = ground arith;
  port_value = refl;
  port_pos = omega arith;
  port_bound = omega arith;
  volume_slash = ground arith;
  volume_dollar = ground arith;
  volume_percent = ground arith;
  path_of = refl;
  path_dollar = ground arith;
  path_percent = ground arith;
}

abbrev libc : Libc
libc = record { format = λ s. s; errno = false; firstpart = [] }

libc-IsLibc : IsLibc libc
libc-IsLibc = record { plain = λ s h. refl; no_error = refl }

url-FitsBuffers : FitsBuffers url digits (b'f' ∷ [])
url-FitsBuffers = record {
  first_half = omega arith;
  second_half = omega arith;
  username = omega arith;
  uamname = omega arith;
  password = omega arith;
  servername = omega arith;
  volumename = omega arith;
  whole_path = omega arith;
}

afp_parse_url-printed_example :
    afp_parse_url libc 1 afp_default_url (printed url digits (b'f' ∷ [])) ≡ ok url
afp_parse_url-printed_example =
    afp_parse_url-printed url digits (b'f' ∷ []) url-IsPrintable url-FitsBuffers libc libc-IsLibc 0
      afp_default_url

earliest_part-twice_example :
    earliest_part libc 9 afp_default_url (b'm' ∷ b'e' ∷ b':' ∷ b':' ∷ b'p' ∷ []) ≡ lost
earliest_part-twice_example =
    earliest_part-twice libc 9 afp_default_url (b'm' ∷ b'e' ∷ []) (b'p' ∷ []) (ground arith)

read_login-afp_login_example :
    read_login (afp_login (b'3' ∷ []) (b'X' ∷ []) (7 ∷ []))
    ≡ some ((18, b'3' ∷ [], b'X' ∷ [], 7 ∷ []), [])
read_login-afp_login_example =
    read_login-afp_login (b'3' ∷ []) (b'X' ∷ []) (7 ∷ []) (omega arith) (omega arith)

abbrev listed : Entry
listed = record { isdir = false; params = params; names = names; name = b'm' ∷ b'e' ∷ [] }

listed-IsEntry : IsEntry 8193 0 listed
unfolding layout lay_shared lay_file lay_end be16 be32
listed-IsEntry = record { finderinfo = refl; fits = omega arith; named = params-NameStands }

afp_enumerateext2_reply-entries_example :
    afp_enumerateext2_reply
      (record {
        error_code = 0;
        body = be16 8193 ++ (be16 0 ++ (be16 1 ++ entries_bytes 8193 0 (listed ∷ [])));
      })
      (λ n. n)
    ≡ stored (understood 8193 0 (λ n. n) (listed ∷ []))
afp_enumerateext2_reply-entries_example =
    afp_enumerateext2_reply-entries 8193 0 (λ n. n) (listed ∷ []) (omega arith) (omega arith)
      (omega arith) (listed-IsEntry, tt)

abbrev info : VolumeInfo
info = record {
  attributes = 0;
  signature = 2;
  creation_date = 0;
  modification_date = 0;
  backup_date = 0;
  volid = 9;
}

abbrev stats : VolumeStats
stats = record { blocksize = 0; bytesfree = 0; bytestotal = 0 }

abbrev vol_params : VolParams
vol_params = record {
  attributes = 64;
  signature = 2;
  created = 0;
  modified = 0;
  backed_up = 0;
  volid = 3;
  free = 100;
  total = 200;
  name = 0;
  ext_free = 5000000000;
  ext_total = 0;
  block_size = 4096;
}

afp_getvolparms_reply-layout_example :
    afp_getvolparms_reply
      (record {
        error_code = 0;
        body = be16 2785 ++ lay_info 2785 vol_params (lay_stats 2785 vol_params []);
      })
      info
      stats
    ≡ stored (info_of 2785 info vol_params, stats_of 2785 stats vol_params)
afp_getvolparms_reply-layout_example =
    afp_getvolparms_reply-layout 2785 info stats vol_params [] (omega arith)

pick_uam-IsHighest_example : IsHighest 16 (bit_and 22 6) (pick_uam 22 6)
pick_uam-IsHighest_example = pick_uam-IsHighest 22 6

abbrev one_mounted : Mount
one_mounted = record { mounted = mounted; volume = volume; is_cache_freed = false }

abbrev not_mounted : Mount
not_mounted = record { mounted = unmounted; volume = volume; is_cache_freed = false }

afp_unmount_all_volumes-unmounts_example :
    let r = afp_unmount_all_volumes granting (not_mounted ∷ one_mounted ∷ []) in
    (something_is_mounted r.1 ≡ false)
    × (r.0 ≡ something_is_mounted (not_mounted ∷ one_mounted ∷ []))
afp_unmount_all_volumes-unmounts_example =
    afp_unmount_all_volumes-unmounts granting (not_mounted ∷ one_mounted ∷ [])
      (inl refl, (inr refl, tt))
