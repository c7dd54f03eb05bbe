-- ===== src/Server/Connect.antt =====
-- lib/afp.c: how a volume is opened and becomes mounted, and the search for volumes;
-- lib/identify.c.
use afpfs_ng.Codepage.{convert_utf8pre_to_utf8dec}
use afpfs_ng.Common.{
  ℕ, List, [], ◌∷◌, Bytes, Bool, true, false, not, ◌&&◌, leb, ◌==◌, Option, none, some,
  if◌then◌else◌, bit_or,
}
use afpfs_ng.Did.Cache.{str_eq}
use afpfs_ng.Names.{utf8_name, long_name}
use afpfs_ng.Proto.Codes.{
  Code, access_denied, bitmap_err, misc_err, object_not_found, param_err, has,
}
use afpfs_ng.Replies.Volumes.{VolumeInfo}
use afpfs_ng.Server.Mounts.{Mount, mounted}
use afpfs_ng.Volume.{Volume}

-- What `afp_volopen` asks for.
unfoldable pub open_bitmap : (av_number : ℕ) → ℕ
open_bitmap av_number =
    let bitmap = bit_or 0x1 (bit_or 0x2 (bit_or 0x4 (bit_or 0x20 0x100))) in
    if leb 30 av_number then bit_or bitmap (bit_or 0x100 0x800) else bitmap

-- What it returns: the code of the reply, or ETIMEDOUT.
pub data Opening : Type 0 where
  replied : Code → Opening
  timed_out : Opening

-- The results that are an error. Others are not listed, and the function goes on.
unfoldable pub is_refused : Opening → Bool
is_refused timed_out = true
is_refused (replied access_denied) = true
is_refused (replied bitmap_err) = true
is_refused (replied misc_err) = true
is_refused (replied object_not_found) = true
is_refused (replied param_err) = true
is_refused (replied _) = false

-- VOLUME_EXTRA_FLAGS_VOL_SUPPORTS_UNIX behind the opening.
unfoldable pub supports_unix : Volume → (attributes : ℕ) → Bool
supports_unix v attributes =
    if leb 30 v.av_number
    then not (v.is_netatalk && not (has attributes 0x20))
    else v.extra_flags.vol_supports_unix

-- The volume and its server with what the reply has filled in.
unfoldable pub connected : Volume → VolumeInfo → Volume
unfolding supports_unix
connected v info = record v {
  path_encoding = if has info.attributes 0x40 then utf8_name else long_name;
  extra_flags = record v.extra_flags { vol_supports_unix = supports_unix v info.attributes };
}

-- Whether the result is 0, and the volume. `info` is what the volume holds after `afp_volopen`. A
-- volume without fixed directories is to be unmounted, which does nothing, since it is not mounted
-- yet.
unfoldable pub afp_connect_volume : Mount → Opening → VolumeInfo → Bool × Mount
unfolding is_refused connected
afp_connect_volume m ret info =
    let encoded = record m.volume {
      path_encoding = if has info.attributes 0x40 then utf8_name else long_name;
    } in
    if is_refused ret
    then (false, m)
    else if info.signature == 2
    then (true, record m { volume = connected m.volume info; mounted = mounted })
    else (false, record m { volume = encoded })

-- The first volume whose printed name is the decomposed name.
unfoldable pub find_volume_by_name :
    {A : Type 0} → (printable : A → Bytes) → Bytes → List A → Option A
unfolding convert_utf8pre_to_utf8dec
find_volume_by_name printable volname [] = none
find_volume_by_name printable volname (v ∷ vs) =
    let later = find_volume_by_name printable volname vs in
    if str_eq (convert_utf8pre_to_utf8dec volname) (printable v) then some v else later

pub data ServerType : Type 0 where
  unknown airport macintosh netatalk : ServerType

-- "Netatalk", "AirPort" and "Macintosh".
unfoldable pub afp_server_identify : (machine_type : Bytes) → ServerType
afp_server_identify machine_type =
    if str_eq machine_type (b'N' ∷ b'e' ∷ b't' ∷ b'a' ∷ b't' ∷ b'a' ∷ b'l' ∷ b'k' ∷ [])
    then netatalk
    else if str_eq machine_type (b'A' ∷ b'i' ∷ b'r' ∷ b'P' ∷ b'o' ∷ b'r' ∷ b't' ∷ [])
    then airport
    else if str_eq machine_type (b'M' ∷ b'a' ∷ b'c' ∷ b'i' ∷ b'n' ∷ b't' ∷ b'o' ∷ b's' ∷ b'h' ∷ [])
    then macintosh
    else unknown
