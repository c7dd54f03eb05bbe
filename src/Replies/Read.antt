-- ===== src/Replies/Read.antt =====
-- The client reads the parameters that a server lays out.
use afpfs_ng.Common.{
  ℕ, ◌+◌, ◌*◌, ◌/◌, ◌%◌, ◌≤◌, ◌<◌, ◌≡◌, refl, [], ◌++◌, Bytes, Bool, true, false, some,
  if◌then◌else◌, length, drop, take-append, arith, ap, ◌∙◌,
}
use afpfs_ng.Names.{copy_from_pascal, copy_from_pascal_two, copy_to_pascal, copy_to_pascal_two}
use afpfs_ng.Names.Paths.{take_all}
use afpfs_ng.Proto.Codes
use afpfs_ng.Proto.Codes.{has}
use afpfs_ng.Replies.Block.{
  when, date_of, afp_max_path, no_dir, no_file, name_of, read_block, parse_reply_block,
}
use afpfs_ng.Replies.Layout.{
  Params, layout, shared_of, dir_of, file_of, end_of, read_shared-lay_shared, read_dir-lay_dir,
  read_file-lay_file, read_end-lay_end,
}
use afpfs_ng.Volume.{FileInfo}
use afpfs_ng.Wire.{◌>>=◌, be16}

pascal_lem :
    (name rest : Bytes)
    → length name < 256
    → (copy_from_pascal (copy_to_pascal name ++ rest) afp_max_path).0 ≡ name
unfolding copy_from_pascal copy_to_pascal
pascal_lem name rest h =
    let e : length name % 256 ≡ length name = omega arith in
    rw (e, take_all name _ refl) (ground (arith, take-append name rest))

pascal_two_lem :
    (old name rest : Bytes)
    → 0 < length name
    → length name ≤ afp_max_path
    → (copy_from_pascal_two old (copy_to_pascal_two name ++ rest) afp_max_path).0 ≡ name
unfolding copy_from_pascal_two copy_to_pascal_two be16
pascal_two_lem old name rest pos h =
    let e : length name % 65536 ≡ length name = omega arith in
    let f : length name / 256 % 256 * 256 + length name % 256 ≡ length name = omega arith in
    rw (e, take_all name _ refl, f) (ground (arith, take-append name rest))

-- Where the name stands: a UTF-8 name behind the text hint at its offset, else a long name at its
-- offset, where they are asked for.
pub data NameStands (buf : Bytes) (bitmap : ℕ) (p : Params) : Bytes → Type 0 where
  utf8 :
      (name rest : Bytes)
      → has bitmap Codes.utf8_name_bit ≡ true
      → drop (p.utf8_name % 65536 + 4) buf ≡ copy_to_pascal_two name ++ rest
      → 0 < length name
      → length name ≤ afp_max_path
      → NameStands buf bitmap p name
  long :
      (name rest : Bytes)
      → has bitmap Codes.utf8_name_bit ≡ false
      → has bitmap Codes.long_name_bit ≡ true
      → drop (p.long_name % 65536) buf ≡ copy_to_pascal name ++ rest
      → length name < 256
      → NameStands buf bitmap p name
  absent :
      has bitmap Codes.utf8_name_bit ≡ false
      → has bitmap Codes.long_name_bit ≡ false
      → NameStands buf bitmap p []

name_of_lem :
    (buf : Bytes) (bitmap : ℕ) (p : Params) (name : Bytes)
    → NameStands buf bitmap p name
    → name_of buf bitmap (shared_of bitmap p).long_name (end_of bitmap p 0 0 0).utf8_name ≡ name
unfolding name_of
name_of_lem buf bitmap p _ (utf8 name rest u at pos short) =
    rw (u, at) (pascal_two_lem _ name rest pos short)
name_of_lem buf bitmap p _ (long name rest u l at short) =
    rw (u, l, at) (pascal_lem name rest short)
name_of_lem buf bitmap p _ (absent u l) = rw (u, l) refl

-- What the parameters say of the file, where they are asked for. Dates count from 2000 in AFP; the
-- long form of a length goes before the short one, and the Unix owner before the AFP one.
abbrev pub meant : Bool → ℕ → Params → Bytes → ℕ → FileInfo
meant isdir bitmap p name ptr =
    let s = shared_of bitmap p in
    let d = if isdir then dir_of bitmap p else no_dir in
    let f = if isdir then no_file else file_of bitmap p in
    let e = end_of bitmap p f.resourcesize d.uid d.gid in
    record {
      ptr = ptr;
      name = name;
      basename = [];
      did = s.did;
      fileid = s.fileid;
      isdir = isdir;
      offspring = d.offspring;
      creation_date = date_of (has bitmap Codes.create_date_bit) s.creation_date;
      modification_date = date_of (has bitmap Codes.mod_date_bit) s.modification_date;
      backup_date = date_of (has bitmap Codes.backup_date_bit) s.backup_date;
      attributes = s.attributes;
      uid = e.uid;
      gid = e.gid;
      permissions = e.permissions;
      ua_permissions = e.ua_permissions;
      accessrights = d.accessrights;
      size = f.size;
      resourcesize = e.resourcesize;
      finderinfo = s.finderinfo;
      resource = 0;
      forkid = 0;
      eof = false;
    }

module _ (buf : Bytes) (bitmap ptr : ℕ) (p : Params) (names : Bytes)
    (e : length p.finderinfo ≡ 32) where
  abbrev name_found : Bytes
  name_found = name_of buf bitmap (shared_of bitmap p).long_name (end_of bitmap p 0 0 0).utf8_name

  read_block_dir :
      read_block buf true bitmap ptr (layout true bitmap p names)
      ≡ some (meant true bitmap p name_found ptr, names)
  unfolding read_block layout when
  read_block_dir =
      simp (◌>>=◌, read_shared-lay_shared bitmap p _ e, read_dir-lay_dir, read_end-lay_end)

  read_block_file :
      read_block buf false bitmap ptr (layout false bitmap p names)
      ≡ some (meant false bitmap p name_found ptr, names)
  unfolding read_block layout when
  read_block_file =
      simp (◌>>=◌, read_shared-lay_shared bitmap p _ e, read_file-lay_file, read_end-lay_end)

parse_read :
    (buf : Bytes) (isdir : Bool) (filebitmap dirbitmap ptr : ℕ) (info : FileInfo) (rest : Bytes)
    → read_block buf isdir (if isdir then dirbitmap else filebitmap) ptr buf ≡ some (info, rest)
    → parse_reply_block buf isdir filebitmap dirbitmap ptr ≡ some info
unfolding parse_reply_block
parse_read buf isdir filebitmap dirbitmap ptr info rest h = rw (h, parse_reply_block) refl

-- From the parameters of a file or directory laid out in the order of the AFP reference for any
-- bitmap, with Finder information of 32 bytes and the name at its offset, `parse_reply_block` fills
-- the struct with the values that are asked for, each to the width of its field in the reply, with
-- dates in Unix time, and with that name; and with zeros for the others. Of the length of the
-- resource fork, short or long, it keeps only the low 16 bits.
pub parse_reply_block-layout :
    (isdir : Bool) (filebitmap dirbitmap ptr : ℕ) (p : Params) (names name : Bytes)
    → length p.finderinfo ≡ 32
    → let bitmap = if isdir then dirbitmap else filebitmap in
      NameStands (layout isdir bitmap p names) bitmap p name
      → parse_reply_block (layout isdir bitmap p names) isdir filebitmap dirbitmap ptr
        ≡ some (meant isdir bitmap p name ptr)
parse_reply_block-layout true filebitmap dirbitmap ptr p names name e stands =
    let buf = layout true dirbitmap p names in
    parse_read buf true filebitmap dirbitmap ptr _ names
      (read_block_dir buf dirbitmap ptr p names e)
    ∙ ap (λ n. some (meant true dirbitmap p n ptr)) (name_of_lem buf dirbitmap p name stands)
parse_reply_block-layout false filebitmap dirbitmap ptr p names name e stands =
    let buf = layout false filebitmap p names in
    parse_read buf false filebitmap dirbitmap ptr _ names
      (read_block_file buf filebitmap ptr p names e)
    ∙ ap (λ n. some (meant false filebitmap p n ptr)) (name_of_lem buf filebitmap p name stands)
