-- ===== src/Proto/Files.antt =====
-- lib/proto_files.c: the requests on files, without their DSI header. `enc` is the server's
-- `path_encoding`, and each argument is cut to its field.
use afpfs_ng.Common.{ℕ, ◌+◌, ◌-◌, ◌%◌, ◌/◌, [], ◌∷◌, ◌++◌, Bytes, ◌==◌, if◌then◌else◌, length, take}
use afpfs_ng.Names.{Encoding, afp_path, sizeof_path_header}
use afpfs_ng.Proto.Codes.{
  Function, code, has, attribute_bit, create_date_bit, mod_date_bit, backup_date_bit,
  finder_info_bit, unix_privs_bit,
}
use afpfs_ng.Wire.{be16, be32, be64}

-- Every request starts with its function and a byte that is mostly 0.
abbrev pub head : Function → ℕ → Bytes
head f second = code f ∷ second % 256 ∷ []

unfoldable pub afp_delete : Encoding → ℕ → ℕ → Bytes → Bytes
afp_delete enc volid dirid pathname =
    head Function.delete 0 ++ (be16 volid ++ (be32 dirid ++ afp_path enc pathname))

unfoldable pub afp_read : ℕ → ℕ → ℕ → Bytes
afp_read forkid offset count =
    head Function.read 0 ++ (be16 forkid ++ (be32 offset ++ (be32 count ++ (0 ∷ 0 ∷ []))))

unfoldable pub afp_readext : ℕ → ℕ → ℕ → Bytes
afp_readext forkid offset count =
    head Function.read_ext 0 ++ (be16 forkid ++ (be64 offset ++ be64 count))

unfoldable pub afp_getfiledirparms : Encoding → ℕ → ℕ → ℕ → ℕ → Bytes → Bytes
afp_getfiledirparms enc volid did filebitmap dirbitmap pathname =
    head Function.get_file_dir_parms 0
    ++ (be16 volid ++ (be32 did ++ (be16 filebitmap ++ (be16 dirbitmap ++ afp_path enc pathname))))

unfoldable pub afp_createfile : Encoding → ℕ → ℕ → ℕ → Bytes → Bytes
afp_createfile enc volid flag did pathname =
    head Function.create_file flag ++ (be16 volid ++ (be32 did ++ afp_path enc pathname))

-- The request carries the first `reqcount` bytes of `data`.
unfoldable pub afp_write : ℕ → ℕ → ℕ → Bytes → Bytes
afp_write forkid offset reqcount contents =
    head Function.write 0
    ++ (be16 forkid ++ (be32 offset ++ (be32 reqcount ++ take reqcount contents)))

unfoldable pub afp_writeext : ℕ → ℕ → ℕ → Bytes → Bytes
afp_writeext forkid offset reqcount contents =
    head Function.write_ext 0
    ++ (be16 forkid ++ (be64 offset ++ (be64 reqcount ++ take reqcount contents)))

-- The fields of `struct afp_file_info` that `afp_setparms_lowlevel` sends.
pub record Parms : Type 0 where
  pub attributes : ℕ
  pub creation_date : ℕ
  pub modification_date : ℕ
  pub backup_date : ℕ
  pub finderinfo : Bytes
  pub uid : ℕ
  pub gid : ℕ
  pub permissions : ℕ
  pub ua_permissions : ℕ

-- AD_DATE_FROM_UNIX (lib/afp_internal.h): seconds from 2000, on 32 bits.
unfoldable pub ad_date_from_unix : ℕ → Bytes
ad_date_from_unix x = be32 ((x + 4294967296 - 946684800) % 4294967296)

-- `if (bitmap & bit)`, for a field that is written.
abbrev field : ℕ → ℕ → Bytes → Bytes
field bitmap bit bs = if has bitmap bit then bs else []

-- `*p = htons(...)` stores one byte, the high one; the next was cleared.
abbrev attribute_field : ℕ → Bytes
attribute_field attributes = attributes / 256 % 256 ∷ 0 ∷ []

-- The parameter block, in the order of the bits.
unfoldable pub parms_block : ℕ → Parms → Bytes
unfolding ad_date_from_unix
parms_block bitmap fp =
    field bitmap attribute_bit (attribute_field fp.attributes)
    ++ (field bitmap create_date_bit (ad_date_from_unix fp.creation_date)
        ++ (field bitmap mod_date_bit (ad_date_from_unix fp.modification_date)
            ++ (field bitmap backup_date_bit (ad_date_from_unix fp.backup_date)
                ++ (field bitmap finder_info_bit (take 32 fp.finderinfo)
                    ++ field bitmap unix_privs_bit (
                        be32 fp.uid
                        ++ (be32 fp.gid ++ (be32 fp.permissions ++ be32 fp.ua_permissions)))))))

-- The block starts on an even boundary of the message, whose buffer starts on one.
abbrev pub pad_even : ℕ → Bytes
pad_even n = if n % 2 == 0 then [] else 0 ∷ []

unfoldable pub afp_setparms_lowlevel : Encoding → Function → ℕ → ℕ → ℕ → Bytes → Parms → Bytes
unfolding parms_block
afp_setparms_lowlevel enc command volid dirid bitmap pathname fp =
    head command 0
    ++ (be16 volid
        ++ (be32 dirid
            ++ (be16 bitmap
                ++ (afp_path enc pathname
                    ++ (pad_even (sizeof_path_header enc + length pathname)
                        ++ parms_block bitmap fp)))))

unfoldable pub afp_setfileparms : Encoding → ℕ → ℕ → ℕ → Bytes → Parms → Bytes
unfolding afp_setparms_lowlevel
afp_setfileparms enc = afp_setparms_lowlevel enc Function.set_file_parms

unfoldable pub afp_setfiledirparms : Encoding → ℕ → ℕ → ℕ → Bytes → Parms → Bytes
unfolding afp_setparms_lowlevel
afp_setfiledirparms enc = afp_setparms_lowlevel enc Function.set_file_dir_parms

unfoldable pub afp_setdirparms : Encoding → ℕ → ℕ → ℕ → Bytes → Parms → Bytes
unfolding afp_setparms_lowlevel
afp_setdirparms enc = afp_setparms_lowlevel enc Function.set_dir_parms
