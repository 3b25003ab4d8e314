-- ===== src/Protocol/Request.antt =====
-- `encodeRequest` of src/protocol.ts: the header of a request and its body, which is a value or,
-- with the flag for it, the bytes of a text or of a buffer. `scalar_text` is `String` of a number or
-- a truth value, in UTF-8.
pub mod Carrying
pub mod Runs
use ferricstore_typescript.Common.{
  Bool-cases, inl, inr, ℕ, ◌+◌, ◌^◌, ◌≤◌, ◌<◌, ◌≡◌, refl, sym, ap, ◌∙◌, subst, Bool, true, false,
  Option, none, some, List, [], ◌∷◌, ◌++◌, ltb, leb, ◌==◌, ltb_false→le, leb_false→lt,
  if◌then◌else◌, length, length-append, drop, min, bit_and, arith,
}
use ferricstore_typescript.Common.Words.{ℤ, pos, negsuc, to_be, of_be, of_be-to_be_4, of_be-to_be_8}
use ferricstore_typescript.Common.Results.{
  Result, ok, err, ◌>>=◌, ◌>>◌, throw_if, >>=-eq-ok, throw_if-ok,
}
use ferricstore_typescript.Common.Utf8.{utf8}
use ferricstore_typescript.Protocol.Frame.{magic, header_size, read_uint}
use mathlib.Core.List.{append-nil}
use ferricstore_typescript.Protocol.Value.{
  Plan, Value, nullish, boolean, integer, bigint, double, text, bytes, array, object, symbol,
  unsupported, Error, frame_too_large, unsupported_type, integer_range, max_safe_integer,
}
use ferricstore_typescript.Protocol.Value.Encode.{
  byte_length, write_value_plan, plan_value_with_limit,
}
use ferricstore_typescript.Protocol.Value.Decode.{decode_value}
use ferricstore_typescript.Protocol.Value.RoundTrip.{image, IsWire, decode_value-planned}

abbrev pub request_version : ℕ
request_version = 1

abbrev pub flag_custom_payload : ℕ
flag_custom_payload = 2

pub record ProtocolCommand : Type 0 where
  pub opcode : ℕ
  pub payload : Value
  pub flags : Option ℕ
  pub lane_id : Option ℕ

-- An infinite limit is none.
unfoldable pub normalize_encode_limit : Option ℤ → ℕ
normalize_encode_limit none = max_safe_integer
normalize_encode_limit (some (pos n)) = min max_safe_integer n
normalize_encode_limit (some (negsuc n)) = 0

unfoldable pub lane_for_opcode : ℕ → ℕ
lane_for_opcode opcode = if ltb opcode 256 then 0 else 1

abbrev pub or_lane : Option ℕ → ℕ → ℕ
or_lane none opcode = lane_for_opcode opcode
or_lane (some lane) opcode = lane

abbrev pub or_no_flags : Option ℕ → ℕ
or_no_flags none = 0
or_no_flags (some flags) = flags

-- What a request may fail with: an error of the encoder, or a field that its place cannot hold.
pub data RequestError : Type 0 where
  encoding : Error → RequestError
  out_of_range : RequestError

abbrev pub encoded : {A : Type 0} → Result Error A → Result RequestError A
encoded (ok a) = ok a
encoded (err e) = err (encoding e)

-- `writeUInt8`, `writeUInt16BE`, `writeUInt32BE`, `writeBigUInt64BE`: `width` bytes.
unfoldable pub write_uint : ℕ → ℕ → Result RequestError (List ℕ)
write_uint width n = if leb (256 ^ width) n then err out_of_range else ok (to_be width n)

-- "Symbol()", the text of a symbol without a description.
abbrev symbol_text : List ℕ
symbol_text = 83 ∷ 121 ∷ 109 ∷ 98 ∷ 111 ∷ 108 ∷ 40 ∷ 41 ∷ []

module _ (scalar_text : Value → List ℕ) where
  -- `binaryValueByteLength` and `writeCustomPayload`
  unfoldable pub custom_payload : Value → Result Error (List ℕ)
  custom_payload nullish = ok []
  custom_payload (boolean b) = ok (scalar_text (boolean b))
  custom_payload (integer z) = ok (scalar_text (integer z))
  custom_payload (bigint z) = ok (scalar_text (bigint z))
  custom_payload (double bits) = ok (scalar_text (double bits))
  custom_payload (text units) = ok (utf8 units)
  custom_payload (bytes bs) = ok bs
  custom_payload (array id vs) = err unsupported_type
  custom_payload (object id fs) = err unsupported_type
  custom_payload (symbol (some description)) = ok (utf8 description)
  custom_payload (symbol none) = ok (utf8 symbol_text)
  custom_payload unsupported = err unsupported_type

  abbrev pub is_custom : ProtocolCommand → Bool
  is_custom command =
      if bit_and (or_no_flags command.flags) flag_custom_payload == 0 then false else true

  -- The body's length and what writes its bytes.
  unfoldable pub request_body : ProtocolCommand → ℕ → Result Error (ℕ × Result Error (List ℕ))
  request_body command limit =
      if is_custom command
      then (do bs ← custom_payload command.payload; ok (length bs, ok bs))
      else (do
        p ← plan_value_with_limit command.payload limit
        ok (byte_length p, write_value_plan p))

  unfoldable pub encode_request : ProtocolCommand → ℕ → Option ℤ → Result RequestError (List ℕ)
  encode_request command request_id max_body_bytes = do
    let limit = normalize_encode_limit max_body_bytes
    body ← encoded (request_body command limit)
    throw_if (ltb limit body.0) (encoding (frame_too_large limit))
    flags ← write_uint 1 (or_no_flags command.flags)
    lane ← write_uint 4 (or_lane command.lane_id command.opcode)
    opcode ← write_uint 2 command.opcode
    id ← write_uint 8 request_id
    size ← write_uint 4 body.0
    payload ← encoded body.1
    ok (magic ++ (request_version ∷ (flags ++ (lane ++ (opcode ++ (id ++ (size ++ payload)))))))
