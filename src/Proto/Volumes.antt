-- ===== src/Proto/Volumes.antt =====
-- lib/proto_volume.c, proto_map.c, proto_server.c and proto_desktop.c: the requests on volumes,
-- users, the server and the desktop database.
use afpfs_ng.Common.{ℕ, ◌+◌, ◌%◌, ◌==◌, [], ◌∷◌, ◌++◌, Bytes, Bool, if◌then◌else◌, length}
use afpfs_ng.Names.{Encoding, afp_path, copy_to_pascal, sizeof_path_header}
use afpfs_ng.Proto.Codes.{Function, code}
use afpfs_ng.Proto.Files.{head, pad_even}
use afpfs_ng.Wire.{be16, be32}

unfoldable pub afp_volclose : ℕ → Bytes
afp_volclose volid = head Function.close_vol 0 ++ be16 volid

unfoldable pub afp_flush : ℕ → Bytes
afp_flush volid = head Function.flush 0 ++ be16 volid

unfoldable pub afp_getvolparms : ℕ → ℕ → Bytes
afp_getvolparms volid bitmap = head Function.get_vol_parms 0 ++ (be16 volid ++ be16 bitmap)

unfoldable pub afp_getuserinfo : ℕ → ℕ → ℕ → Bytes
afp_getuserinfo thisuser userid bitmap =
    head Function.get_user_info (if thisuser == 0 then 0 else 1) ++ (be32 userid ++ be16 bitmap)

unfoldable pub afp_mapid : ℕ → ℕ → Bytes
afp_mapid subfunction id = head Function.map_id subfunction ++ be32 id

unfoldable pub afp_mapname : ℕ → Bytes → Bytes
afp_mapname subfunction name = head Function.map_name subfunction ++ copy_to_pascal name

unfoldable pub afp_getsrvrparms : Bytes
afp_getsrvrparms = code Function.get_srvr_parms ∷ []

unfoldable pub afp_getsrvrmsg : ℕ → Bool → Bytes
afp_getsrvrmsg messagetype utf8 =
    head Function.get_srvr_msg 0 ++ (be16 messagetype ++ be16 (if utf8 then 3 else 1))

unfoldable pub afp_zzzzz : Bytes
afp_zzzzz = head Function.zzzzz 0 ++ be32 0

unfoldable pub afp_opendt : ℕ → Bytes
afp_opendt volid = head Function.open_dt 0 ++ be16 volid

unfoldable pub afp_geticon : ℕ → ℕ → ℕ → ℕ → ℕ → Bytes
afp_geticon dtrefnum filecreator filetype icontype len =
    head Function.get_icon 0
    ++ (be16 dtrefnum ++ (be32 filecreator ++ (be32 filetype ++ (icontype % 256 ∷ 0 ∷ be16 len))))

unfoldable pub afp_getcomment : Encoding → ℕ → ℕ → Bytes → Bytes
afp_getcomment enc dtrefnum did pathname =
    head Function.get_comment 0 ++ (be16 dtrefnum ++ (be32 did ++ afp_path enc pathname))

unfoldable pub afp_addcomment : Encoding → ℕ → ℕ → Bytes → Bytes → Bytes
afp_addcomment enc dtrefnum did pathname comment =
    head Function.add_comment 0
    ++ (be16 dtrefnum
        ++ (be32 did
            ++ (afp_path enc pathname
                ++ (pad_even (sizeof_path_header enc + length pathname)
                    ++ copy_to_pascal comment))))
