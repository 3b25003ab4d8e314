-- ===== src/Protocol/Frame.antt =====
-- The header of the native protocol: `tryDecodeFrame` of src/protocol.ts, the
-- limit of src/protocol-value.ts, the constants of src/protocol-constants.ts and
-- src/native-protocol-manifest.json. A buffer is the list of its bytes.
pub mod Layout
pub mod Prefix
pub mod Runs
use ferricstore_typescript.Common.{
  ℕ, ◌+◌, ◌-◌, ◌*◌, ◌%◌, ◌^◌, ◌<◌, ◌≡◌, Bool, true, false, not, List, [], ◌∷◌, ◌++◌, Option, none,
  some, ltb, ◌==◌, if◌then◌else◌, length, take, drop, min, bit_and,
}
use ferricstore_typescript.Common.Words.{ℤ, pos, negsuc, to_be, of_be}
use ferricstore_typescript.Common.Results.{Result, ok, err, ◌>>=◌, ◌>>◌, throw_if}

abbrev pub header_size : ℕ
header_size = 24

-- "FSNP"
abbrev pub magic : List ℕ
magic = 70 ∷ 83 ∷ 78 ∷ 80 ∷ []

abbrev pub response_version : ℕ
response_version = 129

abbrev pub default_max_frame_bytes : ℕ
default_max_frame_bytes = 16 * 1024 * 1024

abbrev pub flag_more_chunks : ℕ
flag_more_chunks = 32

pub record ResponseFrame : Type 0 where
  pub body : List ℕ
  pub body_length : ℕ
  pub flags : ℕ
  pub lane_id : ℕ
  pub opcode : ℕ
  pub request_id : ℕ

-- `none` is a limit that is undefined or not finite; a finite one is given by its integer part.
unfoldable pub normalize_decode_limit : Option ℤ → ℕ → ℕ
normalize_decode_limit none fallback = fallback
normalize_decode_limit (some (pos n)) fallback = n
normalize_decode_limit (some (negsuc n)) fallback = 0

unfoldable pub bytes_eq : List ℕ → List ℕ → Bool
bytes_eq [] [] = true
bytes_eq [] (b ∷ bs) = false
bytes_eq (a ∷ as') [] = false
bytes_eq (a ∷ as') (b ∷ bs) = if a == b then bytes_eq as' bs else false

-- `toString("ascii")` clears the highest bit of each byte.
unfoldable pub ascii_text : List ℕ → List ℕ
ascii_text [] = []
ascii_text (b ∷ bs) = (b % 128) ∷ ascii_text bs

-- `buffer.subarray(from, to)`
unfoldable pub subarray : ℕ → ℕ → List ℕ → List ℕ
subarray from to buffer = take (to - from) (drop from buffer)

-- `buffer.readUInt8(at)`, `readUInt16BE`, `readUInt32BE`, `readBigUInt64BE`: `width` bytes.
unfoldable pub read_uint : ℕ → ℕ → List ℕ → ℕ
read_uint width at buffer = of_be (take width (drop at buffer))

pub data DecodeError : Type 0 where
  invalid_magic : List ℕ → DecodeError
  invalid_version : ℕ → DecodeError
  frame_too_large : ℕ → DecodeError

-- The frame at the head of a buffer that holds it whole.
pub read_frame : List ℕ → ℕ → ResponseFrame
unfolding subarray read_uint
read_frame buffer body_length = record {
  body = subarray header_size (header_size + body_length) buffer;
  body_length = body_length;
  flags = read_uint 1 5 buffer;
  lane_id = read_uint 4 6 buffer;
  opcode = read_uint 2 10 buffer;
  request_id = read_uint 8 12 buffer;
}

pub try_decode_frame : List ℕ → Option ℤ → Result DecodeError (Option (ResponseFrame × List ℕ))
try_decode_frame buffer max_body_bytes = if ltb (length buffer) header_size then ok none else do
  throw_if (not (bytes_eq (ascii_text (take 4 buffer)) magic)) (invalid_magic (take 4 buffer))
  let version = read_uint 1 4 buffer
  throw_if (not (version == response_version)) (invalid_version version)
  let body_length = read_uint 4 20 buffer
  let body_limit = normalize_decode_limit max_body_bytes default_max_frame_bytes
  throw_if (ltb body_limit body_length) (frame_too_large body_limit)
  let frame_length = header_size + body_length
  if ltb (length buffer) frame_length
      then ok none
      else ok (some (read_frame buffer body_length, drop frame_length buffer))
