-- ===== src/MidLevel/Privs.antt =====
-- `set_unixprivs` of lib/midlevel.c, with the flags in which a volume keeps what it has learnt of
-- its server's chmod.
use afpfs_ng.Common.{
  ℕ, ◌-◌, Bytes, Bool, true, false, not, ◌&&◌, bit_and, ◌==◌, if◌then◌else◌, Ret, val, fail, eperm,
  enosys, enoent, eio, efault,
}
use afpfs_ng.LowLevel.Entry.{get_unixprivs}
use afpfs_ng.Proto.Calls.{set_dir_parms, set_file_dir_parms}
use afpfs_ng.Proto.Codes.{Code, no_err, access_denied, bitmap_err, object_not_found, unix_privs_bit}
use afpfs_ng.Proto.Files.{Parms}
use afpfs_ng.Volume.{Volume, World, FileInfo, M, request}

-- The fields of the struct that a set-parameter request reads.
abbrev pub parms_of : FileInfo → Parms
parms_of fp = record {
  attributes = fp.attributes;
  creation_date = fp.creation_date;
  modification_date = fp.modification_date;
  backup_date = fp.backup_date;
  finderinfo = fp.finderinfo;
  uid = fp.uid;
  gid = fp.gid;
  permissions = fp.permissions;
  ua_permissions = fp.ua_permissions;
}

-- AFP_CHMOD_ALLOWED_BITS_22 and TOCHECK_BITS, with the values of the permission bits on Unix.
abbrev pub afp_chmod_allowed_bits : ℕ
afp_chmod_allowed_bits = 33206

abbrev pub tocheck_bits : ℕ
tocheck_bits = 511

-- `permissions&~(AFP_CHMOD_ALLOWED_BITS_22)`, as a test, on 32 bits.
unfoldable pub has_extra_bits : ℕ → Bool
has_extra_bits permissions = not (bit_and permissions (4294967295 - afp_chmod_allowed_bits) == 0)

unfoldable pub set_result : Code → Ret
set_result access_denied = fail eperm
set_result bitmap_err = fail enosys
set_result object_not_found = fail enoent
set_result no_err = val 0
set_result _ = fail eio

-- "For broken netatalk servers, strip out the extra bits."
unfoldable pub stripped : Volume → FileInfo → FileInfo
unfolding has_extra_bits
stripped v fp =
    if has_extra_bits fp.permissions
      && v.is_netatalk
      && v.extra_flags.vol_chmod_known
      && v.extra_flags.vol_chmod_broken
    then record fp { permissions = bit_and fp.permissions afp_chmod_allowed_bits }
    else fp

abbrev learnt : Bool → Volume → Volume
learnt broken v = record v {
  extra_flags = record v.extra_flags { vol_chmod_known = true; vol_chmod_broken = broken };
}

-- "Check to see if that worked": what was set against what is found, with the result so far.
unfoldable pub check_chmod : World → (dirid : ℕ) → Bytes → (permissions : ℕ) → Ret → M Ret
unfolding get_unixprivs
check_chmod w dirid basename permissions ret v =
    let found = get_unixprivs w dirid basename w.junk v in
    let same = bit_and found.0.1.permissions tocheck_bits == bit_and permissions tocheck_bits in
    let known : Ret × Volume =
      if same then (ret, learnt false found.1) else (fail efault, learnt true found.1) in
    elim found.0.0 [ fail e ↦ (fail e, found.1) | val n ↦ known ]

-- The test at the start, `!vol->extra_flags & VOLUME_EXTRA_FLAGS_VOL_SUPPORTS_UNIX`, is 0 for all
-- flags: `!` gives 0 or 1, and the bit is 8.
unfoldable pub set_unixprivs : World → (dirid : ℕ) → Bytes → FileInfo → M Ret
unfolding set_result stripped has_extra_bits check_chmod
set_unixprivs w dirid basename fp v =
    let asked = record fp { ua_permissions = 0 } in
    let sent = if fp.isdir then asked else stripped v asked in
    let call =
      if fp.isdir
      then set_dir_parms v.volid dirid unix_privs_bit basename (parms_of sent)
      else set_file_dir_parms v.volid dirid unix_privs_bit basename (parms_of sent) in
    let r = request w call v in
    let ret = set_result r.0.code in
    if has_extra_bits sent.permissions && not r.1.extra_flags.vol_chmod_known && r.1.is_netatalk
    then check_chmod w dirid basename sent.permissions ret r.1
    else (ret, r.1)
