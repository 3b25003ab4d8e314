-- ===== src/Protocol/Frame/Runs.antt =====
-- Concrete frames, and the decoder's theorems at them.
use Prim.Native.Nat.{◌≤◌}
use mathlib.Core.Path.{◌≡◌, refl}
use mathlib.Core.Option.{none, some}
use mathlib.Core.List.{[], ◌∷◌, ◌++◌}
use native.Mathlib.Omega.{arith}
use ferricstore_typescript.Common.{length, take}
use ferricstore_typescript.Common.Words.{pos}
use ferricstore_typescript.Common.Results.{ok, err}
use ferricstore_typescript.Protocol.Frame.{
  ResponseFrame, try_decode_frame, frame_too_large, read_uint, read_frame, bytes_eq, ascii_text,
  magic, subarray, normalize_decode_limit, default_max_frame_bytes,
}
use ferricstore_typescript.Protocol.Frame.Layout.{
  IsFrame, frame_bytes, marked_frame_bytes, try_decode_frame-frame_bytes, try_decode_frame_sound,
}

abbrev pub pong : ResponseFrame
pong = record {
  body = 5 ∷ 6 ∷ [];
  body_length = 2;
  flags = 0;
  lane_id = 1;
  opcode = 1;
  request_id = 9;
}

pub pong-IsFrame : IsFrame pong
pong-IsFrame = record {
  length_eq = refl;
  length_fits = omega arith;
  flags_fits = omega arith;
  lane_fits = omega arith;
  opcode_fits = omega arith;
  request_fits = omega arith;
}

pong_bytes :
    frame_bytes pong
    ≡ 70 ∷ 83 ∷ 78 ∷ 80 ∷ 129 ∷ 0 ∷ 0 ∷ 0 ∷ 0 ∷ 1 ∷ 0 ∷ 1 ∷ 0 ∷ 0 ∷ 0 ∷ 0 ∷ 0 ∷ 0 ∷ 0 ∷ 9 ∷ 0 ∷ 0
      ∷ 0 ∷ 2 ∷ 5 ∷ 6 ∷ []
pong_bytes = refl

decoded : try_decode_frame (frame_bytes pong ++ (1 ∷ [])) none ≡ ok (some (pong, 1 ∷ []))
unfolding try_decode_frame read_uint read_frame bytes_eq ascii_text subarray normalize_decode_limit
decoded = refl

-- Bytes that are not "FSNP" but differ in the highest bits alone pass as the magic text.
high_bits :
    try_decode_frame (marked_frame_bytes (198 ∷ 211 ∷ 206 ∷ 208 ∷ []) pong) none
    ≡ ok (some (pong, []))
unfolding try_decode_frame read_uint read_frame bytes_eq ascii_text subarray normalize_decode_limit
high_bits = refl

too_large : try_decode_frame (frame_bytes pong) (some (pos 1)) ≡ err (frame_too_large 1)
unfolding try_decode_frame read_uint read_frame bytes_eq ascii_text subarray normalize_decode_limit
too_large = refl

try_decode_frame-frame_bytes_example :
    try_decode_frame (frame_bytes pong ++ (1 ∷ [])) none ≡ ok (some (pong, 1 ∷ []))
unfolding normalize_decode_limit
try_decode_frame-frame_bytes_example =
    try_decode_frame-frame_bytes pong (1 ∷ []) none pong-IsFrame (omega arith)

try_decode_frame_sound_example :
    (frame_bytes pong ++ (1 ∷ [])
      ≡ marked_frame_bytes (take 4 (frame_bytes pong ++ (1 ∷ []))) pong ++ (1 ∷ []))
    × (ascii_text (take 4 (frame_bytes pong ++ (1 ∷ []))) ≡ magic)
    × (pong.body_length ≡ length pong.body)
    × (pong.body_length ≤ normalize_decode_limit none default_max_frame_bytes)
try_decode_frame_sound_example =
    try_decode_frame_sound (frame_bytes pong ++ (1 ∷ [])) none pong (1 ∷ []) (ground arith) decoded
