-- ===== src/Protocol/Value/Runs.antt =====
-- Concrete values, and the codec's theorems at them.
use ferricstore_typescript.Common.{
  arith, ℕ, ◌+◌, ◌^◌, ◌≤◌, ◌≡◌, refl, true, Option, none, some, List, [], ◌∷◌, ◌++◌, length,
}
use ferricstore_typescript.Common.Words.{pos, negsuc}
use ferricstore_typescript.Common.Results.{ok, err}
use ferricstore_typescript.Common.Utf8.{
  utf8_points, points, is_lead, is_trail, point_bytes, single_point, paired_point,
}
use ferricstore_typescript.Protocol.Value.{
  Plan, entries, entry, no_entries, items, plan, no_plans, tag_only, signed, Value, nullish,
  boolean, integer, bigint, array, object, nil, cons, hole, end, field, Decoded, null_value, truth,
  number, list, record_of, no_items, item, no_fields, member, circular, not_dense, unsafe_integer,
  truncated, frame_too_large, nesting, duplicate_key,
}
use ferricstore_typescript.Protocol.Value.Encode.{
  new_budget, byte_length, plan_value_with_limit, encode_value_with_limit, encode_value,
  write_value_plan, plan_value, open_container, is_among, count_items, count_fields, consume_bytes,
  plan_scalar, is_safe, write_word, count_entries, count_plans, int64_bytes, plan_bigint,
}
use ferricstore_typescript.Protocol.Value.Decode.{
  Reads, decode_value, decode_three, decode_items, decode_value_at, read_word, read_bytes,
  decode_tag, decode_object, require_value_container, consume_decode_items, decode_fields,
  read_binary, set_protocol_map_entry, set_text_entry, has_key, decode_array, add_member,
  integer_value, to_signed,
}
use ferricstore_typescript.Protocol.Frame.{bytes_eq, normalize_decode_limit}
use ferricstore_typescript.Protocol.Value.Lengths.{write_value_plan-plan_value}
use ferricstore_typescript.Protocol.Value.Reading.{decode_three_eq_items}
use ferricstore_typescript.Protocol.Value.Limits.{depth, member_count}
use ferricstore_typescript.Protocol.Value.Bounded.{decode_value_within_limits}
use ferricstore_typescript.Protocol.Value.RoundTrip.{image, decode_value-encode_value}

-- { ok: true, n: [1, -2, null] }
abbrev answer : Value
answer = object 1 (
    field (111 ∷ 107 ∷ []) (boolean true) (
      field (110 ∷ [])
        (array 2 (cons (integer (pos 1)) (cons (bigint (negsuc 1)) (cons nullish nil)))) end))

abbrev answer_bytes : List ℕ
answer_bytes =
    6 ∷ 0 ∷ 0 ∷ 0 ∷ 2 ∷ 0 ∷ 0 ∷ 0 ∷ 2 ∷ 111 ∷ 107 ∷ 1 ∷ 0 ∷ 0 ∷ 0 ∷ 1 ∷ 110 ∷ 5 ∷ 0 ∷ 0 ∷ 0 ∷ 3 ∷ 3
    ∷ 0 ∷ 0 ∷ 0 ∷ 0 ∷ 0 ∷ 0 ∷ 0 ∷ 1 ∷ 3 ∷ 255 ∷ 255 ∷ 255 ∷ 255 ∷ 255 ∷ 255 ∷ 255 ∷ 254 ∷ 0 ∷ []

encoded_answer : encode_value answer ≡ ok answer_bytes
unfolding encode_value encode_value_with_limit plan_value_with_limit plan_value open_container
    is_among count_items count_fields consume_bytes utf8_points points is_lead is_trail point_bytes
    single_point plan_scalar is_safe count_entries count_plans int64_bytes plan_bigint
    write_value_plan write_word paired_point
encoded_answer = refl

-- A string that is its own bytes.
abbrev ascii_key : List ℕ → Option (List ℕ)
ascii_key k = some k

abbrev answer_back : Decoded
answer_back = record_of (
    member (111 ∷ 107 ∷ []) (truth true) (
      member (110 ∷ [])
        (list (item (number (pos 1)) (item (number (negsuc 1)) (item null_value no_items))))
        no_fields))

decoded_answer : decode_value ascii_key answer_bytes 0 none none ≡ ok (answer_back, 41)
unfolding decode_value decode_value_at normalize_decode_limit read_word read_bytes decode_tag
    decode_object require_value_container consume_decode_items decode_fields read_binary
    set_protocol_map_entry set_text_entry has_key decode_array decode_three add_member bytes_eq
    decode_items integer_value to_signed is_safe
decoded_answer = refl

-- An array that holds itself, one with a hole, an unsafe integer, and a value too long.
refused_circular : encode_value (array 1 (cons (array 1 nil) nil)) ≡ err circular
unfolding encode_value encode_value_with_limit plan_value_with_limit plan_value open_container
    is_among count_items count_fields consume_bytes utf8_points points is_lead is_trail point_bytes
    single_point plan_scalar is_safe count_entries count_plans int64_bytes plan_bigint
    write_value_plan write_word paired_point
refused_circular = refl

refused_hole : encode_value (array 1 (cons nullish (hole nil))) ≡ err not_dense
unfolding encode_value encode_value_with_limit plan_value_with_limit plan_value open_container
    is_among count_items count_fields consume_bytes utf8_points points is_lead is_trail point_bytes
    single_point plan_scalar is_safe count_entries count_plans int64_bytes plan_bigint
    write_value_plan write_word paired_point
refused_hole = refl

refused_unsafe : encode_value (integer (pos (2 ^ 53))) ≡ err unsafe_integer
unfolding encode_value encode_value_with_limit plan_value_with_limit plan_value open_container
    is_among count_items count_fields consume_bytes utf8_points points is_lead is_trail point_bytes
    single_point plan_scalar is_safe count_entries count_plans int64_bytes plan_bigint
    write_value_plan write_word paired_point
refused_unsafe = refl

refused_long : encode_value_with_limit (array 1 (cons nullish nil)) 5 ≡ err (frame_too_large 5)
unfolding encode_value encode_value_with_limit plan_value_with_limit plan_value open_container
    is_among count_items count_fields consume_bytes utf8_points points is_lead is_trail point_bytes
    single_point plan_scalar is_safe count_entries count_plans int64_bytes plan_bigint
    write_value_plan write_word paired_point
refused_long = refl

-- An object with a key twice; a list in a list where one level is allowed.
refused_twice :
    decode_value ascii_key
      (6 ∷ 0 ∷ 0 ∷ 0 ∷ 2 ∷ 0 ∷ 0 ∷ 0 ∷ 1 ∷ 97 ∷ 0 ∷ 0 ∷ 0 ∷ 0 ∷ 1 ∷ 97 ∷ 0 ∷ [])
      0
      none
      none
    ≡ err (duplicate_key (97 ∷ []))
unfolding decode_value decode_value_at normalize_decode_limit read_word read_bytes decode_tag
    decode_object require_value_container consume_decode_items decode_fields read_binary
    set_protocol_map_entry set_text_entry has_key decode_array decode_three add_member bytes_eq
    decode_items integer_value to_signed is_safe
refused_twice = refl

refused_deep :
    decode_value ascii_key (5 ∷ 0 ∷ 0 ∷ 0 ∷ 1 ∷ 5 ∷ 0 ∷ 0 ∷ 0 ∷ 0 ∷ []) 0 (some (pos 1)) none
    ≡ err nesting
unfolding decode_value decode_value_at normalize_decode_limit read_word read_bytes decode_tag
    decode_object require_value_container consume_decode_items decode_fields read_binary
    set_protocol_map_entry set_text_entry has_key decode_array decode_three add_member bytes_eq
    decode_items integer_value to_signed is_safe
refused_deep = refl

decode_value-encode_value_example :
    decode_value ascii_key (answer_bytes ++ (9 ∷ [])) 0 none none ≡ ok (image answer, 41)
unfolding utf8_points points is_lead is_trail point_bytes single_point bytes_eq
decode_value-encode_value_example =
    decode_value-encode_value ascii_key answer answer_bytes (9 ∷ []) encoded_answer
      (omega arith, refl, (refl, tt), tt, (omega arith, refl, tt, (tt, (tt, (tt, tt))), tt))

abbrev answer_plan : Plan
answer_plan = entries 41 (
    entry (111 ∷ 107 ∷ []) (tag_only 1) (
      entry (110 ∷ [])
        (items 24 (plan (signed (pos 1)) (plan (signed (negsuc 1)) (plan (tag_only 0) no_plans))))
        no_entries))

planned_answer : plan_value_with_limit answer 41 ≡ ok answer_plan
unfolding encode_value encode_value_with_limit plan_value_with_limit plan_value open_container
    is_among count_items count_fields consume_bytes utf8_points points is_lead is_trail point_bytes
    single_point plan_scalar is_safe count_entries count_plans int64_bytes plan_bigint
    write_value_plan write_word paired_point
planned_answer = refl

budget_of_answer :
    plan_value answer (new_budget 50) [] 0
    ≡ ok (record { max_bytes = 50; remaining_bytes = 9; remaining_items = 99995 }, answer_plan)
unfolding encode_value encode_value_with_limit plan_value_with_limit plan_value open_container
    is_among count_items count_fields consume_bytes utf8_points points is_lead is_trail point_bytes
    single_point plan_scalar is_safe count_entries count_plans int64_bytes plan_bigint
    write_value_plan write_word paired_point
budget_of_answer = refl

write_value_plan-plan_value_example :
    (written : List ℕ) × (write_value_plan answer_plan ≡ ok written)
    × (length written ≡ byte_length answer_plan)
    × (50 ≡ 9 + length written)
write_value_plan-plan_value_example =
    write_value_plan-plan_value answer (new_budget 50) [] 0
      (record { max_bytes = 50; remaining_bytes = 9; remaining_items = 99995 }) answer_plan
      budget_of_answer (omega arith)

abbrev one_byte : ℕ → List ℕ → Reads Decoded
one_byte left [] = err truncated
one_byte left (b ∷ rest) = ok (number (pos b), left, rest)

decode_three_eq_items_example :
    decode_three one_byte 7 (1 ∷ 2 ∷ []) ≡ decode_items one_byte 3 7 (1 ∷ 2 ∷ [])
decode_three_eq_items_example = decode_three_eq_items one_byte 7 (1 ∷ 2 ∷ [])

decode_value_within_limits_example : (depth answer_back ≤ 64) × (member_count answer_back ≤ 100000)
unfolding normalize_decode_limit
decode_value_within_limits_example =
    decode_value_within_limits ascii_key answer_bytes 0 none none answer_back 41 decoded_answer
