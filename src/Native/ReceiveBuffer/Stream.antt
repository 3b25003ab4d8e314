-- ===== src/Native/ReceiveBuffer/Stream.antt =====
-- The receive buffer as a whole: the frames that come out are those of the stream of bytes.
use Prim.Native.Nat.{ℕ, ◌≤◌, ◌<◌}
use mathlib.Core.Path.{◌≡◌, refl, sym}
use mathlib.Core.Bool.{false}
use mathlib.Core.Option.{Option, none, some}
use mathlib.Core.List.{List, [], ◌∷◌, ◌++◌, append-nil}
use native.Mathlib.Omega.{arith}
use ferricstore_typescript.Common.{◌==◌, inl, inr, Bool-cases, ==_iff}
use ferricstore_typescript.Common.Words.{ℤ}
use ferricstore_typescript.Protocol.Frame.{try_decode_frame}
use ferricstore_typescript.Native.ReceiveBuffer.{ReceiveBuffer, FrameAssembly}
use ferricstore_typescript.Native.ReceiveBuffer.Reading.{unread, IsRead}
use ferricstore_typescript.Native.ReceiveBuffer.Frames.{
  assembled, stream, PendingIf, IsValid, Follows,
}
use ferricstore_typescript.Native.ReceiveBuffer.Buffered.{buffered-Follows}
use ferricstore_typescript.Native.ReceiveBuffer.Assembling.{incomplete-Follows, complete-Follows}
use ferricstore_typescript.Native.ReceiveBuffer.Appending.{append_by-stream}
use ferricstore_typescript.Native.ReceiveBuffer.{append}

below : (m n : ℕ) → (m == n) ≡ false → m ≤ n → m < n
below m n e h = ground arith

next-Follows :
    (b : ReceiveBuffer) (limit : Option ℤ) (o : Option FrameAssembly)
    → b.assembly ≡ o
    → IsRead b
    → PendingIf limit o (unread b)
    → Follows limit b (try_decode_frame (assembled o ++ unread b) limit)
next-Follows b limit none e v p = buffered-Follows b limit e v
next-Follows b limit (some a) e v p = elim (Bool-cases (a.received_bytes == a.frame_length)) [
  | inl c ↦ complete-Follows b limit a e v p ((==_iff _ _).0 c)
  | inr c ↦ incomplete-Follows b limit a e v p (below _ _ c p.good.received_le)
]

-- On a valid buffer, `nextFrame` does what the decoder does on the stream of bytes that have come
-- in, and leaves the buffer valid where it does not throw: it throws the decoder's error, waits and keeps the stream, or gives the stream's first frame and keeps what
-- stands behind it.
pub next_frame-Follows :
    (limit : Option ℤ) (b : ReceiveBuffer)
    → IsValid limit b
    → Follows limit b (try_decode_frame (stream b) limit)
next_frame-Follows limit b v = next-Follows b limit b.assembly refl v.read v.pending

-- On a valid buffer, bytes from the socket go to the end of the stream and the buffer stays valid.
pub append-stream :
    (limit : Option ℤ) (b : ReceiveBuffer) (chunk : List ℕ)
    → IsValid limit b
    → IsValid limit (append b chunk) × (stream (append b chunk) ≡ stream b ++ chunk)
unfolding append
append-stream limit b [] v = (v, sym (append-nil (stream b)))
append-stream limit b (x ∷ xs) v =
    let (p, s) = append_by-stream limit b b.assembly (x ∷ xs) refl v.read v.pending in (p, s)
