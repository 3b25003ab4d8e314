-- ===== src/Protocol/Frame/Prefix.antt =====
-- What the decoder reads of a buffer, by the buffer's header alone.
use Prim.Native.Nat.{ℕ, ◌+◌, ◌-◌, ◌≤◌, ◌<◌}
use mathlib.Core.Path.{◌≡◌, refl, ap, ◌∙◌}
use mathlib.Core.Bool.{not}
use mathlib.Core.Option.{Option, none, some}
use mathlib.Core.List.{List, []}
use native.Mathlib.Omega.{arith}
use ferricstore_typescript.Common.{
  length, take, drop, length-take, slice-take, take-take_le, drop_all, ltb, ◌==◌, if◌then◌else◌,
  le→ltb_false, lt→ltb,
}
use ferricstore_typescript.Common.Words.{ℤ, of_be}
use ferricstore_typescript.Common.Results.{Result, ok, err, ◌>>=◌, ◌>>◌, throw_if}
use ferricstore_typescript.Protocol.Frame.{
  DecodeError, invalid_magic, invalid_version, frame_too_large, magic, response_version,
  default_max_frame_bytes, normalize_decode_limit, ascii_text, bytes_eq, read_uint, subarray,
  read_frame, try_decode_frame,
}

-- The three tests on a header.
pub checks : List ℕ → Option ℤ → Result DecodeError (Unit {0})
checks header limit = do
  throw_if (not (bytes_eq (ascii_text (take 4 header)) magic)) (invalid_magic (take 4 header))
  throw_if (not (read_uint 1 4 header == response_version)) (invalid_version (read_uint 1 4 header))
  throw_if (ltb (normalize_decode_limit limit default_max_frame_bytes) (read_uint 4 20 header))
      (frame_too_large (normalize_decode_limit limit default_max_frame_bytes))

abbrev pub frame_size : List ℕ → ℕ
frame_size buffer = 24 + read_uint 4 20 buffer

pub read_uint-take :
    (w i n : ℕ) (buffer : List ℕ) → i + w ≤ n → read_uint w i (take n buffer) ≡ read_uint w i buffer
unfolding read_uint
read_uint-take w i n buffer h = ap of_be (slice-take w i n buffer h)

pub checks-take :
    (n : ℕ) (buffer : List ℕ) (limit : Option ℤ)
    → 24 ≤ n
    → checks (take n buffer) limit ≡ checks buffer limit
unfolding checks
checks-take n buffer limit h = rw (
  take-take_le 4 n buffer (omega arith),
  read_uint-take 1 4 n buffer (omega arith),
  read_uint-take 4 20 n buffer (omega arith),
)

-- A buffer shorter than a header waits.
pub try_decode_short :
    (buffer : List ℕ) (limit : Option ℤ)
    → length buffer < 24
    → try_decode_frame buffer limit ≡ ok none
unfolding try_decode_frame
try_decode_short buffer limit h = rw (lt→ltb (length buffer) 24 h)

then_assoc :
    {A : Type 0} (m v l : Result DecodeError (Unit {0})) (k : Result DecodeError A)
    → (m >> (v >> (l >> k))) ≡ ((m >> (v >> l)) >>= λ _. k)
then_assoc (ok a) (ok b) l k = refl
then_assoc (ok a) (err e) l k = refl
then_assoc (err e) v l k = refl

-- From a header on, the tests come first, and then the length decides.
pub try_decode_checks :
    (buffer : List ℕ) (limit : Option ℤ)
    → 24 ≤ length buffer
    → try_decode_frame buffer limit ≡ (
        checks buffer limit >>= λ _.
        if ltb (length buffer) (frame_size buffer)
        then ok none
        else ok (some (read_frame buffer (read_uint 4 20 buffer), drop (frame_size buffer) buffer)))
unfolding try_decode_frame checks
try_decode_checks buffer limit h = rw (le→ltb_false (length buffer) 24 h) (
    then_assoc
      (throw_if (not (bytes_eq (ascii_text (take 4 buffer)) magic)) (invalid_magic (take 4 buffer)))
      (throw_if (not (read_uint 1 4 buffer == response_version))
        (invalid_version (read_uint 1 4 buffer)))
      (throw_if (ltb (normalize_decode_limit limit default_max_frame_bytes) (read_uint 4 20 buffer))
        (frame_too_large (normalize_decode_limit limit default_max_frame_bytes)))
      _)

pub read_frame-take :
    (n size : ℕ) (buffer : List ℕ)
    → 24 + size ≤ n
    → read_frame (take n buffer) size ≡ read_frame buffer size
unfolding read_frame read_uint subarray
read_frame-take n size buffer h = rw (
  slice-take 1 5 n buffer (omega arith),
  slice-take 4 6 n buffer (omega arith),
  slice-take 2 10 n buffer (omega arith),
  slice-take 8 12 n buffer (omega arith),
  slice-take (24 + size - 24) 24 n buffer (omega arith),
)

-- The whole frame by itself decodes with nothing left.
pub try_decode_exact :
    (buffer : List ℕ) (limit : Option ℤ)
    → frame_size buffer ≤ length buffer
    → checks buffer limit ≡ ok tt
    → try_decode_frame (take (frame_size buffer) buffer) limit
      ≡ ok (some (read_frame buffer (read_uint 4 20 buffer), []))
try_decode_exact buffer limit h c =
    let n : ℕ = frame_size buffer in
    let l : length (take n buffer) ≡ n = omega (arith, length-take n buffer) in
    try_decode_checks (take n buffer) limit (omega (arith, l))
    ∙ rw
        (
          checks-take n buffer limit (omega arith),
          c,
          read_uint-take 4 20 n buffer (omega arith),
          l,
          le→ltb_false n n (omega arith),
          read_frame-take n (read_uint 4 20 buffer) buffer (omega arith),
          drop_all n (take n buffer) (omega (arith, l)),
        )
        refl
