-- ===== src/Replies/Layout.antt =====
-- The parameters of a file or directory as the AFP reference lays them out, and what the client
-- makes of them.
use afpfs_ng.Common.{
  ℕ, ◌%◌, ◌≡◌, refl, [], ◌++◌, Bytes, Bool, true, false, some, if◌then◌else◌, length, replicate,
}
use afpfs_ng.Proto.Codes
use afpfs_ng.Proto.Codes.{has}
use afpfs_ng.Replies.Block.{
  when, jump, Shared, read_shared, OfDir, read_dir, OfFile, read_file, AtEnd, read_end,
}
use afpfs_ng.Wire.{Reader, ◌>>=◌, be16, be32, be64, u16, u32, u64, bytes}
use afpfs_ng.Wire.Laws.{u16-be16, u32-be32, u64-be64, bytes-append}

-- The values of all parameters; those that the bitmap asks for are sent. The names are offsets.
pub record Params : Type 0 where
  pub attributes : ℕ
  pub parent : ℕ
  pub created : ℕ
  pub modified : ℕ
  pub backed_up : ℕ
  pub finderinfo : Bytes
  pub long_name : ℕ
  pub short_name : ℕ
  pub node : ℕ
  pub offspring : ℕ
  pub owner : ℕ
  pub group : ℕ
  pub access : ℕ
  pub data_len : ℕ
  pub rsrc_len : ℕ
  pub ext_data_len : ℕ
  pub launch : ℕ
  pub utf8_name : ℕ
  pub hint : ℕ
  pub ext_rsrc_len : ℕ
  pub unix_uid : ℕ
  pub unix_gid : ℕ
  pub mode : ℕ
  pub user_access : ℕ

-- A parameter that is asked for.
abbrev pub asked : Bool → Bytes → Bytes
asked b bs = if b then bs else []

unfoldable pub lay_shared : ℕ → Params → Bytes → Bytes
lay_shared bitmap p rest =
    asked (has bitmap Codes.attribute_bit) (be16 p.attributes)
    ++ (asked (has bitmap Codes.parent_dir_id_bit) (be32 p.parent)
        ++ (asked (has bitmap Codes.create_date_bit) (be32 p.created)
            ++ (asked (has bitmap Codes.mod_date_bit) (be32 p.modified)
                ++ (asked (has bitmap Codes.backup_date_bit) (be32 p.backed_up)
                    ++ (asked (has bitmap Codes.finder_info_bit) p.finderinfo
                        ++ (asked (has bitmap Codes.long_name_bit) (be16 p.long_name)
                            ++ (asked (has bitmap Codes.short_name_bit) (be16 p.short_name)
                                ++ (asked (has bitmap Codes.node_id_bit) (be32 p.node)
                                    ++ rest))))))))

unfoldable pub lay_dir : ℕ → Params → Bytes → Bytes
lay_dir bitmap p rest =
    asked (has bitmap Codes.offspring_count_bit) (be16 p.offspring)
    ++ (asked (has bitmap Codes.owner_id_bit) (be32 p.owner)
        ++ (asked (has bitmap Codes.group_id_bit) (be32 p.group)
            ++ (asked (has bitmap Codes.access_rights_bit) (be32 p.access) ++ rest)))

unfoldable pub lay_file : ℕ → Params → Bytes → Bytes
lay_file bitmap p rest =
    asked (has bitmap Codes.data_fork_len_bit) (be32 p.data_len)
    ++ (asked (has bitmap Codes.rsrc_fork_len_bit) (be32 p.rsrc_len)
        ++ (asked (has bitmap Codes.ext_data_fork_len_bit) (be64 p.ext_data_len)
            ++ (asked (has bitmap Codes.launch_limit_bit) (be16 p.launch) ++ rest)))

unfoldable pub lay_end : ℕ → Params → Bytes → Bytes
lay_end bitmap p rest =
    asked (has bitmap Codes.utf8_name_bit) (be16 p.utf8_name)
    ++ (asked (has bitmap Codes.utf8_name_bit) (be32 p.hint)
        ++ (asked (has bitmap Codes.ext_rsrc_fork_len_bit) (be64 p.ext_rsrc_len)
            ++ (asked (has bitmap Codes.unix_privs_bit) (be32 p.unix_uid)
                ++ (asked (has bitmap Codes.unix_privs_bit) (be32 p.unix_gid)
                    ++ (asked (has bitmap Codes.unix_privs_bit) (be32 p.mode)
                        ++ (asked (has bitmap Codes.unix_privs_bit) (be32 p.user_access)
                            ++ rest))))))

-- All of them, in front of the names.
unfoldable pub layout : Bool → ℕ → Params → Bytes → Bytes
unfolding lay_shared lay_dir lay_file lay_end
layout true bitmap p names = lay_shared bitmap p (lay_dir bitmap p (lay_end bitmap p names))
layout false bitmap p names = lay_shared bitmap p (lay_file bitmap p (lay_end bitmap p names))

pub when-asked :
    {A : Type 0} (b : Bool) (m : Reader A) (d a : A) (bs rest : Bytes)
    → m (bs ++ rest) ≡ some (a, rest)
    → when b m d (asked b bs ++ rest) ≡ some ((if b then a else d), rest)
unfolding when
when-asked true m d a bs rest h = h
when-asked false m d a bs rest h = refl

module _ (b : Bool) (rest : Bytes) where
  pub when-u16 :
      (d n : ℕ)
      → when b u16 d (asked b (be16 n) ++ rest) ≡ some ((if b then n % 65536 else d), rest)
  when-u16 d n = when-asked b u16 d (n % 65536) (be16 n) rest (u16-be16 n rest)

  pub when-u32 :
      (d n : ℕ)
      → when b u32 d (asked b (be32 n) ++ rest) ≡ some ((if b then n % 4294967296 else d), rest)
  when-u32 d n = when-asked b u32 d (n % 4294967296) (be32 n) rest (u32-be32 n rest)

  pub when-u64 :
      (d n : ℕ)
      → when b u64 d (asked b (be64 n) ++ rest)
        ≡ some ((if b then n % 18446744073709551616 else d), rest)
  when-u64 d n = when-asked b u64 d (n % 18446744073709551616) (be64 n) rest (u64-be64 n rest)

  pub when-jump_two : (n : ℕ) → when b (jump 2) tt (asked b (be16 n) ++ rest) ≡ some (tt, rest)
  unfolding when jump be16
  when-jump_two n =
      elim b as (λ c. when c (jump 2) tt (asked c (be16 n) ++ rest) ≡ some (tt, rest)) [
        | true ↦ refl
        | false ↦ refl
      ]

  pub when-jump_four : (n : ℕ) → when b (jump 4) tt (asked b (be32 n) ++ rest) ≡ some (tt, rest)
  unfolding when jump be32
  when-jump_four n =
      elim b as (λ c. when c (jump 4) tt (asked c (be32 n) ++ rest) ≡ some (tt, rest)) [
        | true ↦ refl
        | false ↦ refl
      ]

  when-bytes :
      (d xs : Bytes)
      → length xs ≡ 32
      → when b (bytes 32) d (asked b xs ++ rest) ≡ some ((if b then xs else d), rest)
  when-bytes d xs e = when-asked b (bytes 32) d xs xs rest (rw e at (bytes-append xs rest))

pub ruleset when_laws = (◌>>=◌, when-u16, when-u32, when-u64, when-jump_two, when-jump_four)

abbrev pub w16 : Bool → ℕ → ℕ
w16 b n = if b then n % 65536 else 0

abbrev pub w32 : Bool → ℕ → ℕ
w32 b n = if b then n % 4294967296 else 0

-- What a reader finds: each field to its width, where it is asked for.
abbrev pub shared_of : ℕ → Params → Shared
shared_of bitmap p = record {
  attributes = w16 (has bitmap Codes.attribute_bit) p.attributes;
  did = w32 (has bitmap Codes.parent_dir_id_bit) p.parent;
  creation_date = w32 (has bitmap Codes.create_date_bit) p.created;
  modification_date = w32 (has bitmap Codes.mod_date_bit) p.modified;
  backup_date = w32 (has bitmap Codes.backup_date_bit) p.backed_up;
  finderinfo = if has bitmap Codes.finder_info_bit then p.finderinfo else replicate 32 0;
  long_name = w16 (has bitmap Codes.long_name_bit) p.long_name;
  fileid = w32 (has bitmap Codes.node_id_bit) p.node;
}

pub read_shared-lay_shared :
    (bitmap : ℕ) (p : Params) (rest : Bytes)
    → length p.finderinfo ≡ 32
    → read_shared bitmap (lay_shared bitmap p rest) ≡ some (shared_of bitmap p, rest)
unfolding read_shared lay_shared
read_shared-lay_shared bitmap p rest e =
    simp (when_laws, λ (b : Bool) (t : Bytes). when-bytes b t (replicate 32 0) p.finderinfo e)

abbrev pub dir_of : ℕ → Params → OfDir
dir_of bitmap p = record {
  offspring = w16 (has bitmap Codes.offspring_count_bit) p.offspring;
  uid = w32 (has bitmap Codes.owner_id_bit) p.owner;
  gid = w32 (has bitmap Codes.group_id_bit) p.group;
  accessrights = w32 (has bitmap Codes.access_rights_bit) p.access;
}

pub read_dir-lay_dir :
    (bitmap : ℕ) (p : Params) (rest : Bytes)
    → read_dir bitmap (lay_dir bitmap p rest) ≡ some (dir_of bitmap p, rest)
unfolding read_dir lay_dir
read_dir-lay_dir bitmap p rest = simp when_laws

abbrev pub file_of : ℕ → Params → OfFile
file_of bitmap p = record {
  size =
      if has bitmap Codes.ext_data_fork_len_bit
      then p.ext_data_len % 18446744073709551616
      else w32 (has bitmap Codes.data_fork_len_bit) p.data_len;
  resourcesize = w32 (has bitmap Codes.rsrc_fork_len_bit) p.rsrc_len % 65536;
}

pub read_file-lay_file :
    (bitmap : ℕ) (p : Params) (rest : Bytes)
    → read_file bitmap (lay_file bitmap p rest) ≡ some (file_of bitmap p, rest)
unfolding read_file lay_file
read_file-lay_file bitmap p rest = simp when_laws

abbrev pub end_of : ℕ → Params → (resourcesize uid gid : ℕ) → AtEnd
end_of bitmap p resourcesize uid gid =
    let unix = has bitmap Codes.unix_privs_bit in
    record {
      utf8_name = w16 (has bitmap Codes.utf8_name_bit) p.utf8_name;
      resourcesize =
          (if has bitmap Codes.ext_rsrc_fork_len_bit
            then p.ext_rsrc_len % 18446744073709551616
            else resourcesize)
          % 65536;
      uid = if unix then p.unix_uid % 4294967296 else uid;
      gid = if unix then p.unix_gid % 4294967296 else gid;
      permissions = w32 unix p.mode;
      ua_permissions = w32 unix p.user_access;
    }

pub read_end-lay_end :
    (bitmap : ℕ) (p : Params) (rest : Bytes) (resourcesize uid gid : ℕ)
    → read_end bitmap resourcesize uid gid (lay_end bitmap p rest)
      ≡ some (end_of bitmap p resourcesize uid gid, rest)
unfolding read_end lay_end
read_end-lay_end bitmap p rest resourcesize uid gid = simp when_laws
