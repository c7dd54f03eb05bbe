-- ===== src/Names/Paths.antt =====
-- The path forms, read as the AFP reference describes them: a type byte, for UTF-8 names a text
-- hint, a length and the name, whose parts a 0 separates.
use afpfs_ng.Common.{
  ℕ, suc, ◌+◌, ◌*◌, ◌/◌, ◌%◌, ◌<◌, [], ◌∷◌, ◌++◌, map, Bytes, ◌≡◌, ◌≢◌, refl, sym, ap, ap₂, ◌∙◌,
  arith, ◌==◌, if◌then◌else◌, length, take, drop, All, append-nil, append_assoc, some,
  length-append, take-append, drop-append,
}
use afpfs_ng.Names.{
  Encoding, short_name, long_name, utf8_name, afp_path, slash_to_zero, sizeof_path_header,
}
use afpfs_ng.Wire.{be16, be32, u8, u16, u32, bytes, Reader, ◌>>=◌, pure}
use afpfs_ng.Wire.Laws.{bytes-append, length-be16, length-be32, u8-cons, u16-be16, u32-be32}

abbrev pub zero_to_slash : ℕ → ℕ
zero_to_slash c = if c == 0 then b'/' else c

-- The server's reading of a path.
unfoldable pub read_path : Encoding → Reader Bytes
read_path utf8_name = do
  t ← u8
  hint ← u32
  len ← u16
  name ← bytes len
  pure (map zero_to_slash name)
read_path long_name = do t ← u8; len ← u8; name ← bytes len; pure (map zero_to_slash name)
read_path short_name = pure []

-- A C string that fits in the buffers of `copy_path`.
pub record IsPath (path : Bytes) : Type 0 where
  pub short : length path < 254
  pub no_zero : All (λ c. c ≢ 0) path

pub length-map : (f : ℕ → ℕ) (xs : Bytes) → length (map f xs) ≡ length xs
length-map f [] = refl
length-map f (x ∷ xs) = ap suc (length-map f xs)

zero_to_slash-slash_to_zero :
    (xs : Bytes) → All (λ c. c ≢ 0) xs → map zero_to_slash (map slash_to_zero xs) ≡ xs
zero_to_slash-slash_to_zero [] h = refl
zero_to_slash-slash_to_zero (x ∷ xs) h =
    ap₂ ◌∷◌ (ground (arith, h.0)) (zero_to_slash-slash_to_zero xs h.1)

pub take_all : (xs : Bytes) (n : ℕ) → n ≡ length xs → take n xs ≡ xs
take_all xs n e = rw e (ap (take (length xs)) (sym (append-nil xs)) ∙ take-append xs [])

pub drop_all : (xs : Bytes) (n : ℕ) → n ≡ length xs → drop n xs ≡ []
drop_all xs n e = rw e (ap (drop (length xs)) (sym (append-nil xs)) ∙ drop-append xs [])

utf8_layout :
    (path : Bytes)
    → length path < 254
    → afp_path utf8_name path
      ≡ 3 ∷ (be32 0x08000103 ++ (be16 (length path) ++ map slash_to_zero path))
unfolding afp_path be16 be32
utf8_layout path h =
    let e1 : length path % 65536 % 256 + 2 ≡ suc (suc (length path)) = omega arith in
    let e2 : length path % 65536 ≡ length path = omega arith in
    let e3 : length path / 256 % 256 * 256 + length path % 256 ≡ length path = omega arith in
    rw (
      e1,
      e2,
      take_all path _ refl,
      take_all path _ refl,
      e3,
      take_all path _ refl,
      drop_all path _ refl,
      append-nil,
    )

long_layout :
    (path : Bytes)
    → length path < 254
    → afp_path long_name path ≡ 2 ∷ length path ∷ map slash_to_zero path
unfolding afp_path
long_layout path h =
    let e1 : length path % 256 + 1 ≡ suc (length path) = omega arith in
    let e2 : length path % 256 ≡ length path = omega arith in
    rw (
      e1,
      e2,
      take_all path _ refl,
      take_all path _ refl,
      take_all path _ refl,
      drop_all path _ refl,
      append-nil,
    )

utf8_read :
    (path rest : Bytes)
    → IsPath path
    → read_path utf8_name (afp_path utf8_name path ++ rest) ≡ some (path, rest)
unfolding read_path
utf8_read path rest h =
    let e : length path % 65536 ≡ length (map slash_to_zero path) =
      omega (arith, length-map slash_to_zero path, h.short) in
    rw (utf8_layout path h.short) (
      simp (◌>>=◌, append_assoc, u8-cons, u32-be32, u16-be16)
        (rw e (simp (◌>>=◌, bytes-append) (rw (zero_to_slash-slash_to_zero path h.no_zero)))))

long_read :
    (path rest : Bytes)
    → IsPath path
    → read_path long_name (afp_path long_name path ++ rest) ≡ some (path, rest)
unfolding read_path
long_read path rest h = rw (long_layout path h.short) (
    simp (◌>>=◌, u8-cons)
      (rw (sym (length-map slash_to_zero path))
        (simp (◌>>=◌, bytes-append) (rw (zero_to_slash-slash_to_zero path h.no_zero)))))

-- A server that reads the path of a request by the AFP reference gets back the path that the client
-- was given, and what follows it, in both encodings that the client writes.
pub read_path-afp_path :
    (enc : Encoding) (path rest : Bytes)
    → enc ≢ short_name
    → IsPath path
    → read_path enc (afp_path enc path ++ rest) ≡ some (path, rest)
read_path-afp_path short_name path rest ne h = absurd (ne refl)
read_path-afp_path long_name path rest ne h = long_read path rest h
read_path-afp_path utf8_name path rest ne h = utf8_read path rest h

-- The bytes written for a path are as many as the requests reserve: the header and the path.
pub length-afp_path :
    (enc : Encoding) (path : Bytes)
    → enc ≢ short_name
    → length path < 254
    → length (afp_path enc path) ≡ sizeof_path_header enc + length path
unfolding sizeof_path_header
length-afp_path short_name path ne h = absurd (ne refl)
length-afp_path long_name path ne h =
    rw (long_layout path h) (omega (arith, length-map slash_to_zero path))
length-afp_path utf8_name path ne h =
    rw (utf8_layout path h) (omega (arith, length-map slash_to_zero path, be_lengths path))
  where
    be_lengths :
        (p : Bytes)
        → length (be32 0x08000103 ++ (be16 (length p) ++ map slash_to_zero p)) ≡ 6 + length p
    be_lengths p = omega (
      arith,
      length-append (be32 0x08000103) (be16 (length p) ++ map slash_to_zero p),
      length-append (be16 (length p)) (map slash_to_zero p),
      length-be16 (length p),
      length-be32 0x08000103,
      length-map slash_to_zero p,
    )
