-- ===== src/Proto/Dirs.antt =====
-- lib/proto_directory.c: the requests on directories.
use afpfs_ng.Common.{ℕ, ◌++◌, Bytes}
use afpfs_ng.Names.{Encoding, afp_path}
use afpfs_ng.Proto.Codes.{Function}
use afpfs_ng.Proto.Files.{head}
use afpfs_ng.Wire.{be16, be32}

unfoldable pub afp_syncdir : ℕ → ℕ → Bytes
afp_syncdir volid did = head Function.sync_dir 0 ++ (be16 volid ++ be32 did)

unfoldable pub afp_moveandrename : Encoding → ℕ → ℕ → ℕ → Bytes → Bytes → Bytes → Bytes
afp_moveandrename enc volid src_did dst_did src_path dst_path new_name =
    head Function.move_and_rename 0
    ++ (be16 volid
        ++ (be32 src_did
            ++ (be32 dst_did
                ++ (afp_path enc src_path ++ (afp_path enc dst_path ++ afp_path enc new_name)))))

unfoldable pub afp_rename : Encoding → ℕ → ℕ → Bytes → Bytes → Bytes
afp_rename enc volid dirid path_from path_to =
    head Function.rename 0
    ++ (be16 volid ++ (be32 dirid ++ (afp_path enc path_from ++ afp_path enc path_to)))

unfoldable pub afp_createdir : Encoding → ℕ → ℕ → Bytes → Bytes
afp_createdir enc volid dirid pathname =
    head Function.create_dir 0 ++ (be16 volid ++ (be32 dirid ++ afp_path enc pathname))

unfoldable pub afp_enumerate : Encoding → ℕ → ℕ → ℕ → ℕ → ℕ → ℕ → Bytes → Bytes
afp_enumerate enc volid dirid filebitmap dirbitmap reqcount startindex pathname =
    head Function.enumerate 0
    ++ (be16 volid
        ++ (be32 dirid
            ++ (be16 filebitmap
                ++ (be16 dirbitmap
                    ++ (be16 reqcount
                        ++ (be16 startindex ++ (be16 5280 ++ afp_path enc pathname)))))))

unfoldable pub afp_enumerateext2 : Encoding → ℕ → ℕ → ℕ → ℕ → ℕ → ℕ → Bytes → Bytes
afp_enumerateext2 enc volid dirid filebitmap dirbitmap reqcount startindex pathname =
    head Function.enumerate_ext2 0
    ++ (be16 volid
        ++ (be32 dirid
            ++ (be16 filebitmap
                ++ (be16 dirbitmap
                    ++ (be16 reqcount
                        ++ (be32 startindex ++ (be32 5280 ++ afp_path enc pathname)))))))
