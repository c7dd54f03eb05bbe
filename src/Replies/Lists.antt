-- ===== src/Replies/Lists.antt =====
-- `afp_getfiledirparms_reply` (lib/proto_files.c), `afp_enumerate_reply` and
-- `afp_enumerateext2_reply` (lib/proto_directory.c).
use afpfs_ng.Common.{
  ℕ, zero, suc, ◌+◌, List, [], ◌∷◌, Bytes, not, ltb, ◌==◌, none, some, if◌then◌else◌, length, drop,
}
use afpfs_ng.Replies.Block.{parse_reply_block}
use afpfs_ng.Replies.Packet.{
  Packet, Handled, stored, failed, overread, returned, read_body, mapped, unless_short,
}
use afpfs_ng.Volume.{FileInfo}
use afpfs_ng.Wire.{Reader, ◌>>=◌, pure, u8, u16}

-- A block in the rest of a packet, for the struct at an address.
abbrev pub block : (isdir filebitmap dirbitmap ptr : ℕ) → Reader FileInfo
block isdir filebitmap dirbitmap ptr p =
    elim (parse_reply_block p (not (isdir == 0)) filebitmap dirbitmap ptr) [
      | none ↦ none
      | some info ↦ some (info, p)
    ]

unfoldable pub afp_getfiledirparms_reply : Packet → (ptr : ℕ) → Handled FileInfo
unfolding read_body
afp_getfiledirparms_reply packet ptr =
    if packet.error_code == 0
    then unless_short 6 packet.body (
        read_body
          (do
            filebitmap ← u16
            dirbitmap ← u16
            isdir ← u8
            pad ← u8
            block isdir filebitmap dirbitmap ptr)
          packet.body)
    else returned packet.error_code

-- The head of an entry: its size, whether it is a directory, and how long the head is.
abbrev pub entry_head : Reader (ℕ × ℕ)
entry_head = do size ← u8; isdir ← u8; pure (size, isdir)

abbrev pub entry_head_ext2 : Reader (ℕ × ℕ)
entry_head_ext2 = do size ← u16; isdir ← u8; pad ← u8; pure (size, isdir)

-- The bitmaps of files and directories, and how many entries follow.
abbrev pub list_head : Reader (ℕ × ℕ × ℕ)
list_head = do fb ← u16; db ← u16; count ← u16; pure (fb, db, count)

-- The loop of `afp_enumerateext2_reply`, for the entries that are left. `malloc` gives the
-- addresses.
unfoldable pub read_entries_ext2 :
    (count filebitmap dirbitmap : ℕ) (fresh : ℕ → ℕ) → Bytes → Handled (List FileInfo)
read_entries_ext2 zero filebitmap dirbitmap fresh p = stored []
read_entries_ext2 (suc count) filebitmap dirbitmap fresh p = elim (entry_head_ext2 p) [
  | none ↦ overread
  | some ((size, isdir), q) ↦ elim (block isdir filebitmap dirbitmap (fresh count) q) [
    | none ↦ overread
    | some (info, _) ↦
        mapped (◌∷◌ info) (read_entries_ext2 count filebitmap dirbitmap fresh (drop size p))
  ]
]

unfoldable pub afp_enumerateext2_reply : Packet → (fresh : ℕ → ℕ) → Handled (List FileInfo)
unfolding read_entries_ext2
afp_enumerateext2_reply packet fresh =
    let entries : Handled (List FileInfo) = elim (list_head packet.body) [
      | none ↦ overread
      | some (head, p) ↦ read_entries_ext2 head.2 head.0 head.1 fresh p
    ] in
    if packet.error_code == 0
    then unless_short 6 packet.body entries
    else returned packet.error_code

-- The loop of `afp_enumerate_reply`, at an offset into the bytes behind the head of the packet. It
-- ends with -1 at an entry that begins behind the end of the packet.
unfoldable pub read_entries :
    (count filebitmap dirbitmap : ℕ) (fresh : ℕ → ℕ) (body : Bytes) (offset : ℕ)
    → Handled (List FileInfo)
read_entries zero filebitmap dirbitmap fresh body offset = stored []
read_entries (suc count) filebitmap dirbitmap fresh body offset =
    let entry : Handled (List FileInfo) = elim (entry_head (drop offset body)) [
      | none ↦ overread
      | some ((size, isdir), q) ↦ elim (block isdir filebitmap dirbitmap (fresh count) q) [
        | none ↦ overread
        | some (info, _) ↦
            mapped (◌∷◌ info) (read_entries count filebitmap dirbitmap fresh body (offset + size))
      ]
    ] in
    if ltb (length body) offset then failed else entry

unfoldable pub afp_enumerate_reply : Packet → (fresh : ℕ → ℕ) → Handled (List FileInfo)
unfolding read_entries
afp_enumerate_reply packet fresh =
    let entries : Handled (List FileInfo) = elim (list_head packet.body) [
      | none ↦ overread
      | some (head, p) ↦ read_entries head.2 head.0 head.1 fresh p 0
    ] in
    if packet.error_code == 0
    then unless_short 6 packet.body entries
    else returned packet.error_code
