-- ===== src/Native/ReceiveBuffer/Runs.antt =====
-- The theorems of the receive buffer at concrete inputs.
use mathlib.Core.Path.{◌≡◌, refl}
use Prim.Native.Nat.{ℕ}
use mathlib.Core.Option.{none}
use mathlib.Core.List.{List, [], ◌∷◌, ◌++◌}
use native.Mathlib.Omega.{arith}
use ferricstore_typescript.Common.Results.{ok}
use ferricstore_typescript.Protocol.Frame.{try_decode_frame, normalize_decode_limit}
use ferricstore_typescript.Protocol.Frame.Layout.{frame_bytes}
use ferricstore_typescript.Protocol.Frame.Runs.{pong, pong-IsFrame}
use ferricstore_typescript.Native.ReceiveBuffer.{ReceiveBuffer, append, empty}
use ferricstore_typescript.Native.ReceiveBuffer.Frames.{stream, IsValid, Follows}
use ferricstore_typescript.Native.ReceiveBuffer.Stream.{next_frame-Follows, append-stream}
use ferricstore_typescript.Native.ReceiveBuffer.Transport.{
  empty-IsValid, append_all, next_frames, next_frames-append_all,
}

append-stream_example :
    IsValid none (append empty (70 ∷ 83 ∷ []))
    × (stream (append empty (70 ∷ 83 ∷ [])) ≡ stream empty ++ (70 ∷ 83 ∷ []))
append-stream_example = append-stream none empty (70 ∷ 83 ∷ []) (empty-IsValid none)

next_frame-Follows_example :
    Follows none
      (append empty (frame_bytes pong))
      (try_decode_frame (stream (append empty (frame_bytes pong))) none)
next_frame-Follows_example =
    next_frame-Follows none (append empty (frame_bytes pong))
      (append-stream none empty (frame_bytes pong) (empty-IsValid none)).0

-- The frame twice, cut inside the first header and inside the second body.
abbrev cut : List (List ℕ)
cut =
    (70 ∷ 83 ∷ 78 ∷ [])
    ∷ (80 ∷ 129 ∷ 0 ∷ 0 ∷ 0 ∷ 0 ∷ 1 ∷ 0 ∷ 1 ∷ 0 ∷ 0 ∷ 0 ∷ 0 ∷ 0 ∷ 0 ∷ 0 ∷ 9 ∷ 0 ∷ 0 ∷ 0 ∷ 2 ∷ 5 ∷ 6
        ∷ 70 ∷ 83 ∷ 78 ∷ 80 ∷ 129 ∷ 0 ∷ 0 ∷ 0 ∷ 0 ∷ 1 ∷ 0 ∷ 1 ∷ 0 ∷ 0 ∷ 0 ∷ 0 ∷ 0 ∷ 0 ∷ 0 ∷ 9 ∷ 0
        ∷ 0 ∷ 0 ∷ 2 ∷ 5 ∷ [])
    ∷ (6 ∷ 70 ∷ [])
    ∷ []

next_frames-append_all_example :
    (b : ReceiveBuffer) × (next_frames 2 none (append_all empty cut) ≡ ok (b, pong ∷ pong ∷ []))
    × IsValid none b
    × (stream b ≡ 70 ∷ [])
unfolding normalize_decode_limit
next_frames-append_all_example =
    next_frames-append_all none (pong ∷ pong ∷ []) (70 ∷ []) cut refl
      ((pong-IsFrame, omega arith), ((pong-IsFrame, omega arith), tt))
