-- ===== src/Resource/Refuse.antt =====
-- The operations of lib/resource.c that a metadata name refuses or absorbs: `appledouble_*` where
-- it makes no request. `go_on` is the result 0, with which the caller goes on; `done` is 1.
use afpfs_ng.Common.{Bytes, Errno, eperm, ebadf}
use afpfs_ng.Resource.Translate.{
  no_meta, resource, apple_double, finder_info, server_icon, extra_translate,
}
use afpfs_ng.Volume.{Volume}

-- The results of the appledouble_* functions.
pub data Absorbed : Type 0 where
  go_on done : Absorbed
  refused : Errno → Absorbed

-- `appledouble_chmod`, `_unlink`, `_mkdir`, `_readlink`, `_rmdir`, `_chown`, `_utime`, `_symlink`
-- and `_rename` have one body.
unfoldable pub appledouble_refuse : Volume → Bytes → Absorbed
unfolding extra_translate
appledouble_refuse v path = elim (extra_translate v path).0 [ no_meta ↦ go_on | _ ↦ refused eperm ]

unfoldable pub appledouble_creat : Volume → Bytes → Absorbed
unfolding extra_translate
appledouble_creat v path = elim (extra_translate v path).0 [
  | resource ↦ done
  | apple_double ↦ refused ebadf
  | server_icon ↦ refused eperm
  | finder_info ↦ done
  | _ ↦ go_on
]
