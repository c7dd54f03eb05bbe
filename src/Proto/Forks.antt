-- ===== src/Proto/Forks.antt =====
-- lib/proto_fork.c: the requests on open forks.
use afpfs_ng.Common.{ℕ, ◌||◌, [], ◌∷◌, ◌++◌, Bytes, Bool, if◌then◌else◌}
use afpfs_ng.Names.{Encoding, afp_path}
use afpfs_ng.Proto.Codes.{Function, has, ext_data_fork_len_bit, ext_rsrc_fork_len_bit}
use afpfs_ng.Proto.Files.{head}
use afpfs_ng.Wire.{be16, be32, be64}

unfoldable pub afp_syncfork : ℕ → ℕ → Bytes
afp_syncfork volid forkid = head Function.sync_fork 0 ++ (be16 volid ++ be16 forkid)

abbrev pub is_ext : ℕ → Bool
is_ext bitmap = has bitmap ext_data_fork_len_bit || has bitmap ext_rsrc_fork_len_bit

-- `newlen64 = htonl(len)`: the four bytes of `len` come first, and four zeros.
unfoldable pub afp_setforkparms : ℕ → ℕ → ℕ → Bytes
afp_setforkparms forkid bitmap len =
    head Function.set_fork_parms 0
    ++ (be16 forkid
        ++ (be16 bitmap ++ (be32 len ++ (if is_ext bitmap then 0 ∷ 0 ∷ 0 ∷ 0 ∷ [] else []))))

unfoldable pub afp_closefork : ℕ → Bytes
afp_closefork forkid = head Function.close_fork 0 ++ be16 forkid

unfoldable pub afp_flushfork : ℕ → Bytes
afp_flushfork forkid = head Function.flush_fork 0 ++ be16 forkid

unfoldable pub afp_openfork : Encoding → Bool → ℕ → ℕ → ℕ → Bytes → Bytes
afp_openfork enc resource volid dirid accessmode filename =
    head Function.open_fork (if resource then 0x80 else 0)
    ++ (be16 volid ++ (be32 dirid ++ (be16 0 ++ (be16 accessmode ++ afp_path enc filename))))

unfoldable pub afp_byterangelock : ℕ → ℕ → ℕ → ℕ → Bytes
afp_byterangelock flag forkid offset len =
    head Function.byte_range_lock flag ++ (be16 forkid ++ (be32 offset ++ be32 len))

unfoldable pub afp_byterangelockext : ℕ → ℕ → ℕ → ℕ → Bytes
afp_byterangelockext flag forkid offset len =
    head Function.byte_range_lock_ext flag ++ (be16 forkid ++ (be64 offset ++ be64 len))
