-- ===== src/Native/ReceiveBuffer/Frames.antt =====
-- `nextFrame` and `append` against the decoder on the whole stream of bytes.
use Prim.Native.Nat.{ℕ, ◌≤◌, ◌<◌}
use mathlib.Core.Path.{◌≡◌, refl, ◌∙◌}
use mathlib.Core.Option.{Option, none, some}
use mathlib.Core.List.{List, [], ◌++◌}
use native.Mathlib.Omega.{arith}
use ferricstore_typescript.Common.{
  length, length-take, take, drop, ltb, inl, inr, Bool-cases, lt→ltb, le→ltb_false,
}
use ferricstore_typescript.Common.Words.{ℤ}
use ferricstore_typescript.Common.Results.{Result, ok, err}
use ferricstore_typescript.Protocol.Frame.{
  ResponseFrame, DecodeError, read_frame, read_uint, try_decode_frame,
}
use ferricstore_typescript.Protocol.Frame.Prefix.{
  checks, frame_size, checks-take, try_decode_checks, try_decode_exact,
}
use ferricstore_typescript.Native.ReceiveBuffer.{
  ReceiveBuffer, FrameAssembly, invalid_frame, decode_frame, next_frame,
}
use ferricstore_typescript.Native.ReceiveBuffer.Paging.{joined, IsGood}
use ferricstore_typescript.Native.ReceiveBuffer.Reading.{unread, IsRead}

abbrev pub assembled : Option FrameAssembly → List ℕ
assembled none = []
assembled (some a) = joined a.pages

-- All bytes that have come in and have not gone out in a frame.
abbrev pub stream : ReceiveBuffer → List ℕ
stream b = assembled b.assembly ++ unread b

-- A frame that is being put together: its header has passed the tests, and bytes behind it are
-- buffered only once it is complete.
pub record Pending (limit : Option ℤ) (a : FrameAssembly) (tail : List ℕ) : Type 0 where
  pub good : IsGood a
  pub header : 24 ≤ length (joined a.pages)
  pub checked : checks (joined a.pages) limit ≡ ok tt
  pub length_eq : a.frame_length ≡ frame_size (joined a.pages)
  pub no_tail : a.received_bytes < a.frame_length → tail ≡ []

abbrev pub PendingIf : Option ℤ → Option FrameAssembly → List ℕ → Type 0
PendingIf limit none tail = Unit {0}
PendingIf limit (some a) tail = Pending limit a tail

pub record IsValid (limit : Option ℤ) (b : ReceiveBuffer) : Type 0 where
  pub read : IsRead b
  pub pending : PendingIf limit b.assembly (unread b)

-- What `nextFrame` must do when the decoder gives this on the stream.
abbrev pub Follows :
    Option ℤ → ReceiveBuffer → Result DecodeError (Option (ResponseFrame × List ℕ)) → Type 0
Follows limit b (err e) = next_frame b limit ≡ err (invalid_frame e)
Follows limit b (ok none) =
    (b' : ReceiveBuffer) × (next_frame b limit ≡ ok (b', none))
    × IsValid limit b'
    × (stream b' ≡ stream b)
Follows limit b (ok (some (frame, rest))) =
    (b' : ReceiveBuffer) × (next_frame b limit ≡ ok (b', some frame))
    × IsValid limit b'
    × (stream b' ≡ rest)

-- A stream that holds the frame whole.
module _ (buffer : List ℕ) (limit : Option ℤ) (fits : frame_size buffer ≤ length buffer)
    (c : checks buffer limit ≡ ok tt) where
  pub frame_at : ResponseFrame
  frame_at = read_frame buffer (read_uint 4 20 buffer)

  pub decode_whole :
      try_decode_frame buffer limit ≡ ok (some (frame_at, drop (frame_size buffer) buffer))
  unfolding frame_at
  decode_whole =
      try_decode_checks buffer limit (omega arith)
      ∙ rw (c, le→ltb_false (length buffer) (frame_size buffer) fits) refl

  pub decode_exact : decode_frame (take (frame_size buffer) buffer) limit ≡ ok frame_at
  unfolding decode_frame frame_at
  decode_exact = rw (try_decode_exact buffer limit fits c) refl

pub decode_waits :
    (buffer : List ℕ) (limit : Option ℤ)
    → 24 ≤ length buffer
    → length buffer < frame_size buffer
    → checks buffer limit ≡ ok tt
    → try_decode_frame buffer limit ≡ ok none
decode_waits buffer limit h s c =
    try_decode_checks buffer limit h ∙ rw (c, lt→ltb (length buffer) (frame_size buffer) s) refl

pub decode_refused :
    (buffer : List ℕ) (limit : Option ℤ) (e : DecodeError)
    → 24 ≤ length buffer
    → checks buffer limit ≡ err e
    → (try_decode_frame buffer limit ≡ err e) × (try_decode_frame (take 24 buffer) limit ≡ err e)
decode_refused buffer limit e h c = (
  try_decode_checks buffer limit h ∙ rw c refl,
  try_decode_checks (take 24 buffer) limit (omega (arith, length-take 24 buffer))
      ∙ rw (checks-take 24 buffer limit (omega arith), c) refl,
)

-- The header alone is not refused.
pub decode_header :
    (buffer : List ℕ) (limit : Option ℤ)
    → 24 ≤ length buffer
    → checks buffer limit ≡ ok tt
    → (o : Option (ResponseFrame × List ℕ)) × (try_decode_frame (take 24 buffer) limit ≡ ok o)
decode_header buffer limit h c =
    let t : List ℕ = take 24 buffer in
    let e = try_decode_checks t limit (omega (arith, length-take 24 buffer)) in
    let c' = checks-take 24 buffer limit (omega arith) ∙ c in
    elim (Bool-cases (ltb (length t) (frame_size t))) [
      | inl s ↦ (none, e ∙ rw (c', s) refl)
      | inr s ↦ (some (read_frame t (read_uint 4 20 t), drop (frame_size t) t), e ∙ rw (c', s) refl)
    ]
