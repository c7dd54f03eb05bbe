-- ===== src/Dsi/Stream.antt =====
-- The byte stream of a session: what `dsi_send` has written, message after message.
use afpfs_ng.Common.{
  ℕ, zero, suc, List, [], ◌∷◌, ◌++◌, Bytes, Option, none, some, ◌≡◌, refl, All, length, map, arith,
}
use afpfs_ng.Dsi.Frame.{Message, Header, IsSendable, announced, sent, read_frame, read_frame-sent}

-- What the server receives after these messages.
unfoldable pub stream : List Message → Bytes
stream [] = []
stream (m ∷ ms) = sent m ++ stream ms

-- The server's loop: `n` frames from the front, and nothing left over.
unfoldable pub read_frames : ℕ → Bytes → Option (List (Header × Bytes))
read_frames zero [] = some []
read_frames zero (b ∷ bs) = none
read_frames (suc n) bs = elim (read_frame bs) [
  | none ↦ none
  | some (f, rest) ↦ elim (read_frames n rest) [ none ↦ none | some fs ↦ some (f ∷ fs) ]
]

-- The framing keeps messages apart: from the concatenation of any messages whose fields fit the
-- header, a reader of frames gets the headers and bodies in order, and no byte is left over.
pub read_frames-stream :
    (ms : List Message)
    → All IsSendable ms
    → read_frames (length ms) (stream ms) ≡ some (map (λ m. (announced m, m.body)) ms)
unfolding read_frames stream
read_frames-stream [] h = refl
read_frames-stream (m ∷ ms) h =
    ground (arith, read_frame-sent m (stream ms) h.0, read_frames-stream ms h.1)
