-- ===== src/Tests/Files.antt =====
-- Names, reply blocks, listings and a read-only volume.
use afpfs_ng.Codepage.{convert_path_to_afp, combine, convert_utf8pre_to_utf8dec}
use afpfs_ng.Codepage.Compose.{
  IsCanonical, decomposed, decomposed-combine, length-convert_utf8pre_to_utf8dec,
}
use afpfs_ng.Common.{
  ℕ, ◌+◌, ◌*◌, ◌≤◌, ◌≡◌, refl, List, [], ◌∷◌, ◌++◌, Bytes, true, false, Option, none, some, ◌==◌,
  ◌&&◌, if◌then◌else◌, length, replicate, val, arith, ap, sym, Bool-cases, inl, inr,
}
use afpfs_ng.LowLevel.Batches.{Enumerates, read_batches-entries, read_batches-unlisted}
use afpfs_ng.LowLevel.Listing.{list_from, read_batches, next_of}
use afpfs_ng.LowLevel.Locks.{has_ext}
use afpfs_ng.MidLevel.Change.{afp_ml_chown, afp_ml_utime}
use afpfs_ng.LowLevel.Opening.{record_open, ll_open}
use afpfs_ng.LowLevel.Unguarded.{write_request, ll_open-readonly}
use afpfs_ng.MidLevel.Closing.{returned, afp_ml_close, afp_ml_close-record_open}
use afpfs_ng.MidLevel.Opened.{write_only}
use afpfs_ng.MidLevel.Create.{afp_ml_mkdir}
use afpfs_ng.MidLevel.Metadata.{below-Refused}
use afpfs_ng.MidLevel.ReadOnly.{run, run-Refused, unlink}
use afpfs_ng.MidLevel.Refused.{some_ret, Refused}
use afpfs_ng.MidLevel.Remove.{afp_ml_unlink, afp_ml_rmdir}
use afpfs_ng.Resource.Translate.{appledouble}
use afpfs_ng.Names.{invalid_filename, copy_to_pascal_two}
use afpfs_ng.Proto.Calls.{Call, enumerate, enumerate_ext2}
use afpfs_ng.Proto.Codes.{no_err, object_not_found, lock_err}
use afpfs_ng.Replies.Block.{parse_reply_block}
use afpfs_ng.Replies.Layout.{Params, layout}
use afpfs_ng.Replies.Read.{NameStands, utf8, meant, parse_reply_block-layout}
use afpfs_ng.Tests.Data.{file, reply, volume, granting}
use afpfs_ng.Volume.{Volume, FileInfo, Reply, World}
use afpfs_ng.Wire.{be16, be32}

-- The small a and a diaeresis make one character.
abbrev pairs : ℕ → ℕ → Option ℕ
pairs p c = if (p == 97) && (c == 776) then some 228 else none

abbrev expansion : ℕ → List ℕ
expansion c = if c == 228 then 97 ∷ 776 ∷ [] else c ∷ []

pairs-IsCanonical : IsCanonical expansion pairs
pairs-IsCanonical = record { parts = λ p c q h. ground arith; fits = λ p c q h. ground arith }

decomposed-combine_example :
    decomposed expansion (combine pairs 0 (98 ∷ 97 ∷ 776 ∷ [])) ≡ 98 ∷ 97 ∷ 776 ∷ []
decomposed-combine_example =
    decomposed-combine expansion pairs pairs-IsCanonical (98 ∷ 97 ∷ 776 ∷ []) (ground arith)

length-convert_utf8pre_to_utf8dec_example :
    2 * length (convert_utf8pre_to_utf8dec (0xc3 ∷ 0xa4 ∷ [])) ≤ 6
length-convert_utf8pre_to_utf8dec_example = length-convert_utf8pre_to_utf8dec (0xc3 ∷ 0xa4 ∷ [])

-- The attributes and a UTF-8 name.
abbrev pub params : Params
params = record {
  attributes = 5;
  parent = 0;
  created = 0;
  modified = 0;
  backed_up = 0;
  finderinfo = replicate 32 0;
  long_name = 0;
  short_name = 0;
  node = 0;
  offspring = 0;
  owner = 0;
  group = 0;
  access = 0;
  data_len = 0;
  rsrc_len = 0;
  ext_data_len = 0;
  launch = 0;
  utf8_name = 8;
  hint = 0;
  ext_rsrc_len = 0;
  unix_uid = 0;
  unix_gid = 0;
  mode = 0;
  user_access = 0;
}

abbrev pub names : Bytes
names = 0 ∷ 0 ∷ 0 ∷ 0 ∷ 0 ∷ 2 ∷ b'm' ∷ b'e' ∷ []

pub params-NameStands : NameStands (layout false 8193 params names) 8193 params (b'm' ∷ b'e' ∷ [])
unfolding layout copy_to_pascal_two be16 be32
params-NameStands = utf8 (b'm' ∷ b'e' ∷ []) [] refl refl (omega arith) (omega arith)

parse_reply_block-layout_example :
    parse_reply_block (layout false 8193 params names) false 8193 0 1
    ≡ some (meant false 8193 params (b'm' ∷ b'e' ∷ []) 1)
parse_reply_block-layout_example =
    parse_reply_block-layout false 8193 0 1 params names (b'm' ∷ b'e' ∷ []) refl params-NameStands

-- A directory with one file.
abbrev from_index : ℕ → Reply
from_index i =
    if i == 1 then record (reply no_err) { entries = file ∷ [] } else reply object_not_found

abbrev listing_call : Call → Reply
listing_call (enumerate v d f db n i name) = from_index i
listing_call (enumerate_ext2 v d f db n i name) = from_index i
listing_call c = reply no_err

abbrev listing : World
listing = record granting { peer = λ sent. listing_call }

listing_call_lem :
    (u : Volume) (d i : ℕ) (name : Bytes) → listing_call (list_from u false d i name) ≡ from_index i
unfolding list_from
listing_call_lem u d i name = elim (Bool-cases (has_ext u)) [
  | inl e ↦ rw e refl
  | inr e ↦ rw e refl
]

listing_inside :
    (u : Volume) (before : List FileInfo) (x : FileInfo) (after : List FileInfo)
    → file ∷ [] ≡ before ++ (x ∷ after)
    → let r = listing_call (list_from u false 2 (length before + 1) []) in
      (e : FileInfo) × (es : List FileInfo) × (rest : List FileInfo) × (r.code ≡ no_err)
      × (r.entries ≡ e ∷ es)
      × (x ∷ after ≡ e ∷ (es ++ rest))
listing_inside u [] x after split =
    let answer = listing_call_lem u 2 1 [] in
    (file, [], [], ap (λ r. r.code) answer, ap (λ r. r.entries) answer, sym split)
listing_inside u (y ∷ []) x after split = absurd (grind arith)
listing_inside u (y ∷ z ∷ ys) x after split = absurd (grind arith)

listing-Enumerates : Enumerates listing false 2 [] (file ∷ [])
listing-Enumerates = record {
  at_end = λ u. ap (λ r. r.code) (listing_call_lem u 2 2 []);
  inside = listing_inside;
}

read_batches-entries_example :
    (read_batches listing 2 false 2 1 [] [] volume).0 ≡ some (val 0, file ∷ [])
read_batches-entries_example =
    read_batches-entries listing false 2 [] (file ∷ []) listing-Enumerates 2 volume (omega arith)
      (omega arith)

abbrev puzzling : World
puzzling = record granting { peer = λ sent c. reply lock_err }

read_batches-unlisted_example : (read_batches puzzling 9 false 2 1 [] [] volume).0 ≡ none
unfolding next_of
read_batches-unlisted_example = read_batches-unlisted puzzling false 2 1 [] [] (λ u. refl) 9 volume

abbrev locked_volume : Volume
locked_volume = record volume { attr_read_only = true }

run-Refused_example :
    Refused (run granting 9 (unlink (b'/' ∷ b'm' ∷ [])) locked_volume) locked_volume
run-Refused_example = run-Refused locked_volume refl granting 9 (unlink (b'/' ∷ b'm' ∷ [])) tt

below-Refused_example :
    let path = b'/' ∷ b'd' ∷ b'/' ∷ (appledouble ++ (b'/' ∷ b'm' ∷ [])) in
    Refused (some_ret (afp_ml_mkdir granting path volume)) volume
    × Refused (some_ret (afp_ml_unlink granting path volume)) volume
    × Refused (some_ret (afp_ml_rmdir granting path volume)) volume
    × Refused (some_ret (afp_ml_chown granting path 501 20 volume)) volume
    × Refused (some_ret (afp_ml_utime granting path 100 volume)) volume
below-Refused_example =
    below-Refused volume refl granting (b'/' ∷ b'd' ∷ []) (b'/' ∷ b'm' ∷ []) 501 20 100

abbrev opened_file : FileInfo
opened_file = record file { ptr = 2 }

afp_ml_close-record_open_example :
    let opened = (record_open granting write_only opened_file volume).1 in
    let closed = afp_ml_close granting (b'/' ∷ b'm' ∷ []) (some opened_file) opened in
    (closed.0 ≡ returned (val 0)) × (closed.1.open_forks ≡ file ∷ [])
unfolding convert_path_to_afp invalid_filename
afp_ml_close-record_open_example =
    afp_ml_close-record_open granting write_only opened_file (b'/' ∷ b'm' ∷ []) (b'/' ∷ b'm' ∷ [])
      volume refl refl refl

ll_open-readonly_example :
    let r = ll_open granting 1 (b'/' ∷ b'm' ∷ []) write_only file locked_volume in
    (r.0.0 ≡ some (val 0))
    × (r.1.sent ≡ write_request file locked_volume ∷ [])
    × (r.1.open_forks ≡ r.0.1 ∷ file ∷ [])
ll_open-readonly_example =
    ll_open-readonly granting 0 (b'/' ∷ b'm' ∷ []) write_only file locked_volume refl refl refl refl
      refl
