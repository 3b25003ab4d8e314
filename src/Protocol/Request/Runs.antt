-- ===== src/Protocol/Request/Runs.antt =====
-- A request with a value, encoded.
use ferricstore_typescript.Common.{ℕ, ◌≡◌, refl, true, Option, none, some, List, [], ◌∷◌}
use ferricstore_typescript.Common.Words.{pos}
use ferricstore_typescript.Common.Results.{ok, err}
use ferricstore_typescript.Protocol.Value.{Value, boolean, array, bytes, cons, nil, frame_too_large}
use ferricstore_typescript.Protocol.Value.Encode.{
  plan_value_with_limit, plan_value, open_container, is_among, count_items, consume_bytes,
  plan_scalar, write_value_plan, write_word, count_plans,
}
use ferricstore_typescript.Protocol.Request.{
  ProtocolCommand, normalize_encode_limit, lane_for_opcode, encoding, out_of_range, write_uint,
  custom_payload, request_body, encode_request,
}
use ferricstore_typescript.Protocol.Request.Carrying.{Carries, encode_request-decode_value}

abbrev no_scalars : Value → List ℕ
no_scalars v = []

abbrev whole_key : List ℕ → Option (List ℕ)
whole_key k = some k

abbrev command : ProtocolCommand
command = record {
  opcode = 258;
  payload = array 1 (cons (boolean true) nil);
  flags = none;
  lane_id = none;
}

abbrev command_frame : List ℕ
command_frame =
    70 ∷ 83 ∷ 78 ∷ 80 ∷ 1 ∷ 0 ∷ 0 ∷ 0 ∷ 0 ∷ 1 ∷ 1 ∷ 2 ∷ 0 ∷ 0 ∷ 0 ∷ 0 ∷ 0 ∷ 0 ∷ 0 ∷ 9 ∷ 0 ∷ 0 ∷ 0
    ∷ 6 ∷ 5 ∷ 0 ∷ 0 ∷ 0 ∷ 1 ∷ 1 ∷ []

encoded_command : encode_request no_scalars command 9 (some (pos 6)) ≡ ok command_frame
unfolding encode_request normalize_encode_limit lane_for_opcode request_body custom_payload
    write_uint plan_value_with_limit plan_value open_container is_among count_items consume_bytes
    plan_scalar write_value_plan write_word count_plans
encoded_command = refl

refused_body :
    encode_request no_scalars command 9 (some (pos 5)) ≡ err (encoding (frame_too_large 5))
unfolding encode_request normalize_encode_limit lane_for_opcode request_body custom_payload
    write_uint plan_value_with_limit plan_value open_container is_among count_items consume_bytes
    plan_scalar write_value_plan write_word count_plans
refused_body = refl

-- Bytes that go as they are, and are not planned against the limit but compared with it.
refused_bytes :
    encode_request no_scalars
      (record command { flags = some 2; payload = bytes (1 ∷ 2 ∷ []) })
      9
      (some (pos 1))
    ≡ err (encoding (frame_too_large 1))
unfolding encode_request normalize_encode_limit lane_for_opcode request_body custom_payload
    write_uint plan_value_with_limit plan_value open_container is_among count_items consume_bytes
    plan_scalar write_value_plan write_word count_plans
refused_bytes = refl

refused_flags :
    encode_request no_scalars (record command { flags = some 256 }) 9 none ≡ err out_of_range
unfolding encode_request normalize_encode_limit lane_for_opcode request_body custom_payload
    write_uint plan_value_with_limit plan_value open_container is_among count_items consume_bytes
    plan_scalar write_value_plan write_word count_plans
refused_flags = refl

encode_request-decode_value_example :
    Carries whole_key (array 1 (cons (boolean true) nil)) 9 6 command_frame
unfolding normalize_encode_limit
encode_request-decode_value_example =
    encode_request-decode_value no_scalars whole_key command 9 (some (pos 6)) command_frame
      encoded_command refl (tt, tt)
