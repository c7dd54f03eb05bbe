-- ===== src/Names/Limits.antt =====
-- What `invalid_filename` accepts: paths each of whose parts fits the server.
use afpfs_ng.Common.{
  ℕ, ◌+◌, ◌≤◌, false, List, [], ◌∷◌, Bytes, ◌≡◌, ◌↔◌, refl, arith, ◌==◌, if◌then◌else◌, length,
  drop, All,
}
use afpfs_ng.Names.{Encoding, max_name, scan_parts, invalid_filename}

abbrev first_part : Bytes → Bytes
first_part [] = []
first_part (c ∷ cs) = if c == b'/' then [] else c ∷ first_part cs

abbrev later_parts : Bytes → List Bytes
later_parts [] = []
later_parts (c ∷ cs) = if c == b'/' then first_part cs ∷ later_parts cs else later_parts cs

-- The parts of a path between its slashes.
abbrev pub parts : Bytes → List Bytes
parts path = first_part path ∷ later_parts path

abbrev Fits : ℕ → Bytes → Type 0
Fits m part = length part ≤ m

scan_parts-Fits :
    (m seen : ℕ) (cs : Bytes)
    → scan_parts m seen cs ≡ false
    → (seen + length (first_part cs) ≤ m) × All (Fits m) (later_parts cs)
unfolding scan_parts
scan_parts-Fits m seen [] h = ground arith
scan_parts-Fits m seen (c ∷ cs) h =
    ground (arith, scan_parts-Fits m 0 cs, scan_parts-Fits m (seen + 1) cs)

Fits-scan_parts :
    (m seen : ℕ) (cs : Bytes)
    → seen + length (first_part cs) ≤ m
    → All (Fits m) (later_parts cs)
    → scan_parts m seen cs ≡ false
unfolding scan_parts
Fits-scan_parts m seen [] h hs = ground arith
Fits-scan_parts m seen (c ∷ cs) h hs =
    ground (arith, Fits-scan_parts m 0 cs, Fits-scan_parts m (seen + 1) cs)

-- A path passes `invalid_filename` exactly when every part behind its first byte is no longer than
-- the server's limit: 31 below AFP 3.0, and from there 1024 for UTF-8 names and 255 for others.
pub invalid_filename-parts :
    (av : ℕ) (enc : Encoding) (path : Bytes)
    → (invalid_filename av enc path ≡ false)
      ↔ All (λ part. length part ≤ max_name av enc) (parts (drop 1 path))
unfolding invalid_filename
invalid_filename-parts av enc path = (accepted path, accept path)
  where
    accepted :
        (p : Bytes)
        → invalid_filename av enc p ≡ false
        → All (Fits (max_name av enc)) (parts (drop 1 p))
    accepted [] h = omega arith
    accepted (c ∷ []) h = omega arith
    accepted (c ∷ d ∷ p) h =
        let s = scan_parts-Fits (max_name av enc) 0 (d ∷ p) h in (omega (arith, s.0), s.1)

    accept :
        (p : Bytes)
        → All (Fits (max_name av enc)) (parts (drop 1 p))
        → invalid_filename av enc p ≡ false
    accept [] h = refl
    accept (c ∷ []) h = ground arith
    accept (c ∷ d ∷ p) h = Fits-scan_parts (max_name av enc) 0 (d ∷ p) (omega (arith, h.0)) h.1
