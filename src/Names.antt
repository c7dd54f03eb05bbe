-- ===== src/Names.antt =====
-- lib/utils.c: Pascal strings, the path forms of AFP and the limits on file names. A C string is
-- the list of its bytes before the final 0; a buffer is the list of the bytes in it.
pub mod Paths
pub mod Limits
use afpfs_ng.Common.{
  ℕ, zero, suc, ◌+◌, ◌*◌, ◌%◌, Bool, true, false, ◌&&◌, List, [], ◌∷◌, ◌++◌, map, Bytes, ltb, leb,
  ◌==◌, if◌then◌else◌, length, take, drop, get_or, replicate, min,
}
use afpfs_ng.Wire.{be16, be32}

-- `server->path_encoding`: kFPShortName, kFPLongName, kFPUTF8Name.
pub data Encoding : Type 0 where
  short_name long_name utf8_name : Encoding

-- The least of the length byte and `max_len`.
abbrev clip : ℕ → ℕ → ℕ
clip max_len len = if ltb max_len len then max_len % 256 else len

-- The bytes that `dest` holds before any 0, with the length returned. `dest` is cleared first.
unfoldable pub copy_from_pascal : Bytes → ℕ → Bytes × ℕ
copy_from_pascal [] max_len = ([], 0)
copy_from_pascal (len ∷ rest) max_len = (take (clip max_len len) rest, clip max_len len)

abbrev clip_two : ℕ → ℕ → ℕ
clip_two max_len len = if ltb max_len len then max_len % 65536 else len

-- With a length of 0 `dest` is left as it was, `old`.
unfoldable pub copy_from_pascal_two : Bytes → Bytes → ℕ → Bytes × ℕ
copy_from_pascal_two old (a ∷ b ∷ rest) max_len =
    let len = clip_two max_len (a * 256 + b) in if len == 0 then (old, 0) else (take len rest, len)
copy_from_pascal_two old _ max_len = (old, 0)

-- `strlen` is cut to the type of the length.
unfoldable pub copy_to_pascal : Bytes → Bytes
copy_to_pascal src = let len = length src % 256 in len ∷ take len src

unfoldable pub copy_to_pascal_two : Bytes → Bytes
copy_to_pascal_two src = let len = length src % 65536 in be16 len ++ take len src

unfoldable pub sizeof_path_header : Encoding → ℕ
sizeof_path_header utf8_name = 7
sizeof_path_header long_name = 2
sizeof_path_header short_name = 0

-- What is written at `dest`. `namelen` is an `unsigned char`, and the two-byte form is copied from
-- `tmppathname` up to it.
unfoldable pub copy_path : Encoding → Bytes → Bytes
unfolding copy_to_pascal copy_to_pascal_two
copy_path utf8_name path =
    3 ∷ (be32 0x08000103 ++ take (length path % 65536 % 256 + 2) (copy_to_pascal_two path))
copy_path long_name path = 2 ∷ take (length path % 256 + 1) (copy_to_pascal path)
copy_path short_name path = []

abbrev pub slash_to_zero : ℕ → ℕ
slash_to_zero c = if c == b'/' then 0 else c

abbrev map_range : ℕ → ℕ → Bytes → Bytes
map_range from len buf =
    take from buf ++ (map slash_to_zero (take len (drop from buf)) ++ drop len (drop from buf))

-- Every slash of the name that stands in `buf` becomes a 0. The length is read from the buffer.
unfoldable pub unixpath_to_afppath : Encoding → Bytes → Bytes
unixpath_to_afppath utf8_name buf = map_range 7 (get_or buf 5 0 * 256 + get_or buf 6 0) buf
unixpath_to_afppath long_name buf = map_range 2 (get_or buf 1 0) buf
unixpath_to_afppath short_name buf = buf

-- The path at the end of a request, as `copy_path` and `unixpath_to_afppath` leave it.
unfoldable pub afp_path : Encoding → Bytes → Bytes
unfolding copy_path unixpath_to_afppath
afp_path enc path = unixpath_to_afppath enc (copy_path enc path)

-- The longest name that the server takes: `av_number` and `path_encoding` of the server.
unfoldable pub max_name : ℕ → Encoding → ℕ
max_name av enc = if ltb av 30 then 31 else elim enc [ utf8_name ↦ 1024 | _ ↦ 255 ]

-- The loop of `invalid_filename` from `p`: `seen` bytes lie between `p` and the byte looked at. It
-- ends with the test of the last part.
unfoldable pub scan_parts : ℕ → ℕ → Bytes → Bool
scan_parts maxlen seen [] = ltb maxlen seen
scan_parts maxlen seen (c ∷ cs) =
    let next = scan_parts maxlen 0 cs in
    let more = scan_parts maxlen (seen + 1) cs in
    if c == b'/' then (if ltb maxlen seen then true else next) else more

-- Nonzero for a name with a part that is too long. The first byte is passed over.
unfoldable pub invalid_filename : ℕ → Encoding → Bytes → Bool
unfolding scan_parts max_name
invalid_filename av enc [] = false
invalid_filename av enc (c ∷ []) = if c == b'/' then false else scan_parts (max_name av enc) 0 []
invalid_filename av enc (c ∷ cs) = scan_parts (max_name av enc) 0 cs
