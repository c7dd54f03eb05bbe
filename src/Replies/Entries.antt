-- ===== src/Replies/Entries.antt =====
-- The client reads the entries that a server lays out after one another.
use mathlib.Core.Path.{subst}
use afpfs_ng.Common.{
  ℕ, zero, suc, ◌+◌, ◌%◌, ◌<◌, ◌≡◌, refl, ap, ◌∙◌, List, [], ◌∷◌, ◌++◌, append_assoc, Bytes, Bool,
  true, false, not, ◌==◌, some, if◌then◌else◌, length, drop, ltb, drop-append, All, arith,
}
use afpfs_ng.Names.{copy_to_pascal, copy_to_pascal_two}
use afpfs_ng.Replies.Block.{parse_reply_block}
use afpfs_ng.Replies.Layout.{Params, layout, lay_shared, lay_dir, lay_file, lay_end}
use afpfs_ng.Replies.Lists.{entry_head_ext2, list_head, read_entries_ext2, afp_enumerateext2_reply}
use afpfs_ng.Replies.Packet.{stored}
use afpfs_ng.Replies.Read.{NameStands, utf8, long, absent, meant, parse_reply_block-layout}
use afpfs_ng.Volume.{FileInfo}
use afpfs_ng.Wire.{be16, ◌>>=◌}
use afpfs_ng.Wire.Laws.{u16-be16, u8-cons}

drop_more :
    (n x : ℕ) (xs buf more : Bytes) → drop n buf ≡ x ∷ xs → drop n (buf ++ more) ≡ x ∷ (xs ++ more)
drop_more zero x xs buf more h = rw h refl
drop_more (suc n) x xs [] more h = cc h
drop_more (suc n) x xs (b ∷ buf) more h = drop_more n x xs buf more h

NameStands-more :
    (buf more : Bytes) (bitmap : ℕ) (p : Params) (name : Bytes)
    → NameStands buf bitmap p name
    → NameStands (buf ++ more) bitmap p name
unfolding copy_to_pascal copy_to_pascal_two be16
NameStands-more buf more bitmap p _ (utf8 name rest u at pos short) =
    utf8 name (rest ++ more) u
      (drop_more (p.utf8_name % 65536 + 4) _ _ buf more at
        ∙ append_assoc (copy_to_pascal_two name) rest more)
      pos short
NameStands-more buf more bitmap p _ (long name rest u l at short) =
    long name (rest ++ more) u l
      (drop_more (p.long_name % 65536) _ _ buf more at
        ∙ append_assoc (copy_to_pascal name) rest more)
      short
NameStands-more buf more bitmap p _ (absent u l) = absent u l

layout-append :
    (isdir : Bool) (bitmap : ℕ) (p : Params) (names more : Bytes)
    → layout isdir bitmap p names ++ more ≡ layout isdir bitmap p (names ++ more)
unfolding layout lay_shared lay_dir lay_file lay_end
layout-append true bitmap p names more = simp append_assoc
layout-append false bitmap p names more = simp append_assoc

-- A file or directory in a list: what is said of it, the bytes in which its names stand, and its
-- name.
pub record Entry : Type 0 where
  pub isdir : Bool
  pub params : Params
  pub names : Bytes
  pub name : Bytes

abbrev pub bitmap_of : (filebitmap dirbitmap : ℕ) → Entry → ℕ
bitmap_of filebitmap dirbitmap e = if e.isdir then dirbitmap else filebitmap

abbrev pub laid : (filebitmap dirbitmap : ℕ) → Entry → Bytes
laid filebitmap dirbitmap e = layout e.isdir (bitmap_of filebitmap dirbitmap e) e.params e.names

-- Its size with the head, whether it is a directory, and a byte of padding in front.
abbrev pub entry_bytes : (filebitmap dirbitmap : ℕ) → Entry → Bytes
entry_bytes filebitmap dirbitmap e =
    be16 (4 + length (laid filebitmap dirbitmap e))
    ++ ((if e.isdir then 128 else 0) ∷ 0 ∷ laid filebitmap dirbitmap e)

abbrev pub entries_bytes : (filebitmap dirbitmap : ℕ) → List Entry → Bytes
entries_bytes filebitmap dirbitmap [] = []
entries_bytes filebitmap dirbitmap (e ∷ es) =
    entry_bytes filebitmap dirbitmap e ++ entries_bytes filebitmap dirbitmap es

-- The Finder information has its size, the whole fits its field of 16 bits, and the name stands
-- where the parameters say.
pub record IsEntry (filebitmap dirbitmap : ℕ) (e : Entry) : Type 0 where
  pub finderinfo : length e.params.finderinfo ≡ 32
  pub fits : 4 + length (laid filebitmap dirbitmap e) < 65536
  pub named :
      NameStands (laid filebitmap dirbitmap e) (bitmap_of filebitmap dirbitmap e) e.params e.name

-- What the client makes of the entries, in the structs at the addresses that `malloc` gives.
abbrev pub understood : (filebitmap dirbitmap : ℕ) (fresh : ℕ → ℕ) → List Entry → List FileInfo
understood filebitmap dirbitmap fresh [] = []
understood filebitmap dirbitmap fresh (e ∷ es) =
    meant e.isdir (bitmap_of filebitmap dirbitmap e) e.params e.name (fresh (length es))
    ∷ understood filebitmap dirbitmap fresh es

flag_lem : (b : Bool) → not ((if b then 128 else 0) == 0) ≡ b
flag_lem true = refl
flag_lem false = refl

module _ (fb db : ℕ) (fresh : ℕ → ℕ) where
  parse_more :
      (e : Entry) (ptr : ℕ) (more : Bytes)
      → IsEntry fb db e
      → parse_reply_block (laid fb db e ++ more) e.isdir fb db ptr
        ≡ some (meant e.isdir (bitmap_of fb db e) e.params e.name ptr)
  parse_more e ptr more h =
      let grown = layout-append e.isdir (bitmap_of fb db e) e.params e.names more in
      ap (λ b. parse_reply_block b e.isdir fb db ptr) grown
      ∙ parse_reply_block-layout e.isdir fb db ptr e.params (e.names ++ more) e.name h.finderinfo (
          subst (λ b. NameStands b (bitmap_of fb db e) e.params e.name) grown
            (NameStands-more (laid fb db e) more (bitmap_of fb db e) e.params e.name h.named))

  entry_head_lem :
      (e : Entry) (more : Bytes)
      → IsEntry fb db e
      → entry_head_ext2 (entry_bytes fb db e ++ more)
        ≡ some ((4 + length (laid fb db e), (if e.isdir then 128 else 0)), laid fb db e ++ more)
  entry_head_lem e more h =
      let fits : (4 + length (laid fb db e)) % 65536 ≡ 4 + length (laid fb db e) =
        omega (arith, h.fits) in
      simp (append_assoc, u16-be16, ◌>>=◌, u8-cons, fits)

  drop_entry :
      (e : Entry) (more : Bytes)
      → drop (4 + length (laid fb db e)) (entry_bytes fb db e ++ more) ≡ more
  unfolding be16
  drop_entry e more =
      let size : 4 + length (laid fb db e) ≡ suc (suc (suc (suc (length (laid fb db e))))) =
        omega arith in
      ap (λ n. drop n (entry_bytes fb db e ++ more)) size ∙ drop-append (laid fb db e) more

  read_entries_ext2_lem :
      (es : List Entry)
      → All (IsEntry fb db) es
      → read_entries_ext2 (length es) fb db fresh (entries_bytes fb db es)
        ≡ stored (understood fb db fresh es)
  unfolding read_entries_ext2
  read_entries_ext2_lem [] h = refl
  read_entries_ext2_lem (e ∷ es) h =
      let more = entries_bytes fb db es in
      rw (entry_head_lem e more h.0, read_entries_ext2)
        (rw (flag_lem e.isdir, parse_more e (fresh (length es)) more h.0, drop_entry e more)
          (rw (read_entries_ext2_lem es h.1) refl))

list_head_lem :
    (fb db count : ℕ) (rest : Bytes)
    → fb < 65536
    → db < 65536
    → count < 65536
    → list_head (be16 fb ++ (be16 db ++ (be16 count ++ rest))) ≡ some ((fb, db, count), rest)
list_head_lem fb db count rest f d n =
    let f' : fb % 65536 ≡ fb = omega arith in
    let d' : db % 65536 ≡ db = omega arith in
    let n' : count % 65536 ≡ count = omega arith in simp (u16-be16, ◌>>=◌, f', d', n')

long_enough :
    (fb db count : ℕ) (rest : Bytes)
    → ltb (length (be16 fb ++ (be16 db ++ (be16 count ++ rest)))) 6 ≡ false
unfolding be16
long_enough fb db count rest = ground arith

-- `afp_enumerateext2_reply` gives the list of the files and directories that the server has put
-- after one another, in their order, each with its name and with what its parameters say, for any
-- bitmaps of 16 bits and for at most 65535 entries of at most 65535 bytes. Of the length of a
-- resource fork it keeps only the low 16 bits.
pub afp_enumerateext2_reply-entries :
    (filebitmap dirbitmap : ℕ) (fresh : ℕ → ℕ) (es : List Entry)
    → filebitmap < 65536
    → dirbitmap < 65536
    → length es < 65536
    → All (IsEntry filebitmap dirbitmap) es
    → let body =
        be16 filebitmap
        ++ (be16 dirbitmap ++ (be16 (length es) ++ entries_bytes filebitmap dirbitmap es)) in
      afp_enumerateext2_reply (record { error_code = 0; body = body }) fresh
      ≡ stored (understood filebitmap dirbitmap fresh es)
unfolding afp_enumerateext2_reply
afp_enumerateext2_reply-entries fb db fresh es f d n h =
    let entries = entries_bytes fb db es in
    rw (long_enough fb db (length es) entries, list_head_lem fb db (length es) entries f d n)
      (read_entries_ext2_lem fb db fresh es h)
