-- ===== src/Native/ReceiveBuffer/Transport.antt =====
-- Frames sent by the server come out of the receive buffer as they were sent, however the socket
-- cuts the bytes.
use Prim.Native.Nat.{ℕ, zero, suc, ◌≤◌}
use mathlib.Core.Path.{◌≡◌, refl, sym, ap, ◌∙◌, subst}
use mathlib.Core.Option.{Option, none, some}
use mathlib.Core.List.{List, [], ◌∷◌, ◌++◌, append-nil, append_assoc}
use native.Mathlib.Omega.{arith}
use ferricstore_typescript.Common.{All, concat, length}
use ferricstore_typescript.Common.Words.{ℤ}
use ferricstore_typescript.Common.Results.{Result, ok, ◌>>=◌}
use ferricstore_typescript.Protocol.Frame.{
  ResponseFrame, try_decode_frame, normalize_decode_limit, default_max_frame_bytes,
}
use ferricstore_typescript.Protocol.Frame.Layout.{
  IsFrame, frame_bytes, try_decode_frame-frame_bytes,
}
use ferricstore_typescript.Native.ReceiveBuffer.{ReceiveBuffer, Error, next_frame, append, empty}
use ferricstore_typescript.Native.ReceiveBuffer.Frames.{stream, IsValid, Follows}
use ferricstore_typescript.Native.ReceiveBuffer.Stream.{next_frame-Follows, append-stream}

abbrev pub append_all : ReceiveBuffer → List (List ℕ) → ReceiveBuffer
append_all b [] = b
append_all b (c ∷ cs) = append_all (append b c) cs

-- What is done with the result of one `nextFrame`: stop on none, else go on.
abbrev pub next_rest :
    (ReceiveBuffer → Result Error (ReceiveBuffer × List ResponseFrame))
    → ReceiveBuffer × Option ResponseFrame
    → Result Error (ReceiveBuffer × List ResponseFrame)
next_rest go (b, none) = ok (b, [])
next_rest go (b, some f) = go b >>= λ r. ok (r.0, f ∷ r.1)

-- `nextFrame`, called until it gives nothing, `n` times at most.
abbrev pub next_frames :
    ℕ → Option ℤ → ReceiveBuffer → Result Error (ReceiveBuffer × List ResponseFrame)
next_frames zero limit b = ok (b, [])
next_frames (suc n) limit b = next_frame b limit >>= next_rest (next_frames n limit)

abbrev pub IsSent : Option ℤ → ResponseFrame → Type 0
IsSent limit f = IsFrame f × (f.body_length ≤ normalize_decode_limit limit default_max_frame_bytes)

abbrev pub wire : List ResponseFrame → List ℕ
wire [] = []
wire (f ∷ fs) = frame_bytes f ++ wire fs

pub empty-IsValid : (limit : Option ℤ) → IsValid limit empty
empty-IsValid limit = record {
  read = record { full = tt; index_le = omega arith; fits = omega arith; buffered_eq = refl };
  pending = tt;
}

append_all-stream :
    (limit : Option ℤ) (b : ReceiveBuffer) (chunks : List (List ℕ))
    → IsValid limit b
    → IsValid limit (append_all b chunks)
      × (stream (append_all b chunks) ≡ stream b ++ concat chunks)
append_all-stream limit b [] v = (v, sym (append-nil (stream b)))
append_all-stream limit b (c ∷ cs) v =
    let (v1, s1) = append-stream limit b c v in
    let (v2, s2) = append_all-stream limit (append b c) cs v1 in
    (v2, s2 ∙ rw s1 (append_assoc (stream b) c (concat cs)))

decoded_first :
    (limit : Option ℤ) (b : ReceiveBuffer) (f : ResponseFrame) (rest : List ℕ)
    → IsValid limit b
    → stream b ≡ frame_bytes f ++ rest
    → IsSent limit f
    → (b' : ReceiveBuffer) × (next_frame b limit ≡ ok (b', some f))
      × IsValid limit b'
      × (stream b' ≡ rest)
decoded_first limit b f rest v e (s, l) =
    subst (Follows limit b)
      (ap (λ (x : List ℕ). try_decode_frame x limit) e
        ∙ try_decode_frame-frame_bytes f rest limit s l)
      (next_frame-Follows limit b v)

next_frames-wire :
    (limit : Option ℤ) (b : ReceiveBuffer) (frames : List ResponseFrame) (rest : List ℕ)
    → IsValid limit b
    → stream b ≡ wire frames ++ rest
    → All (IsSent limit) frames
    → (b' : ReceiveBuffer) × (next_frames (length frames) limit b ≡ ok (b', frames))
      × IsValid limit b'
      × (stream b' ≡ rest)
next_frames-wire limit b [] rest v e s = (b, refl, v, e)
next_frames-wire limit b (f ∷ fs) rest v e (s, ss) =
    let (b1, e1, v1, s1) =
      decoded_first limit b f (wire fs ++ rest) v (e ∙ append_assoc (frame_bytes f) (wire fs) rest)
        s in
    let (b2, e2, v2, s2) = next_frames-wire limit b1 fs rest v1 s1 ss in
    (b2, rw (e1, e2) refl, v2, s2)

-- Frames that are laid out one after the other, each within the decoder's limit, and come in as
-- chunks of any sizes that make up those bytes and perhaps some bytes more, come out in order and
-- unchanged; the bytes more stay in the buffer.
pub next_frames-append_all :
    (limit : Option ℤ) (frames : List ResponseFrame) (rest : List ℕ) (chunks : List (List ℕ))
    → concat chunks ≡ wire frames ++ rest
    → All (IsSent limit) frames
    → (b : ReceiveBuffer) × (next_frames (length frames) limit (append_all empty chunks)
        ≡ ok (b, frames))
      × IsValid limit b
      × (stream b ≡ rest)
next_frames-append_all limit frames rest chunks e s =
    let (v, t) = append_all-stream limit empty chunks (empty-IsValid limit) in
    next_frames-wire limit (append_all empty chunks) frames rest v (t ∙ e) s
