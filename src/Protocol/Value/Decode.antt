-- ===== src/Protocol/Value/Decode.antt =====
-- The decoder. A place in the data is given by the bytes from there on. `room` is how much deeper
-- containers may nest; `left` is the budget of items. Keys are told by `isUtf8` and `toString` of
-- node, the parameter `key_text`: none for bytes that are not UTF-8.
use ferricstore_typescript.Common.{
  ℕ, zero, suc, ◌-◌, ◌^◌, Bool, true, false, Option, none, some, List, ltb, ◌==◌, if◌then◌else◌,
  length, take, drop,
}
use ferricstore_typescript.Common.Words.{ℤ, pos, negsuc, of_be}
use ferricstore_typescript.Common.Results.{Result, ok, err, ◌>>=◌, ◌>>◌, throw_if}
use ferricstore_typescript.Protocol.Frame.{bytes_eq, normalize_decode_limit}
use ferricstore_typescript.Protocol.Value.{
  Decoded, null_value, truth, number, big, buffer, list, record_of, float, DecodedItems, no_items,
  item, DecodedFields, no_fields, member, Error, nesting, container_items, total_items, truncated,
  null_length, bad_key, duplicate_key, unknown_tag, default_max_value_items,
  default_max_value_depth, null_u32,
}
use ferricstore_typescript.Protocol.Value.Encode.{is_safe}

-- What a reader gives: a value, the items left, the bytes left.
abbrev pub Reads : Type 0 → Type 0
Reads A = Result Error (A × ℕ × List ℕ)

-- `requireAvailable`, and the bytes.
unfoldable pub read_bytes : ℕ → List ℕ → Result Error (List ℕ × List ℕ)
read_bytes size input =
    if ltb (length input) size then err truncated else ok (take size input, drop size input)

unfoldable pub read_word : ℕ → List ℕ → Result Error (ℕ × List ℕ)
read_word size input = do r ← read_bytes size input; ok (of_be r.0, r.1)

unfoldable pub read_binary : List ℕ → Result Error (List ℕ × List ℕ)
read_binary input = do
  r ← read_word 4 input
  throw_if (r.0 == null_u32) null_length
  read_bytes r.0 r.1

unfoldable pub consume_decode_items : ℕ → ℕ → Result Error ℕ
consume_decode_items count left = if ltb left count then err total_items else ok (left - count)

unfoldable pub require_value_container : ℕ → ℕ → ℕ → ℕ → Result Error ℕ
require_value_container count room max_items left = do
  throw_if (room == 0) nesting
  throw_if (ltb max_items count) container_items
  consume_decode_items count left

-- `readBigInt64BE`
unfoldable pub to_signed : ℕ → ℤ
to_signed n = if ltb n (2 ^ 63) then pos n else negsuc (2 ^ 64 - 1 - n)

unfoldable pub integer_value : ℤ → Decoded
integer_value z = if is_safe z then number z else big z

unfoldable pub has_key : List ℕ → DecodedFields → Bool
has_key key no_fields = false
has_key key (member k v fs) = if bytes_eq k key then true else has_key key fs

-- `Object.defineProperty` of a new key.
unfoldable pub add_member : List ℕ → Decoded → DecodedFields → DecodedFields
add_member key value no_fields = member key value no_fields
add_member key value (member k v fs) = member k v (add_member key value fs)

unfoldable pub set_text_entry :
    Option (List ℕ) → Decoded → DecodedFields → Result Error DecodedFields
set_text_entry none value target = err bad_key
set_text_entry (some key) value target =
    if has_key key target then err (duplicate_key key) else ok (add_member key value target)

-- The loop over the items of an array; `inner` reads a value one level deeper.
unfoldable pub decode_items : (ℕ → List ℕ → Reads Decoded) → ℕ → ℕ → List ℕ → Reads DecodedItems
decode_items inner zero left input = ok (no_items, left, input)
decode_items inner (suc count) left input = do
  r ← inner left input
  s ← decode_items inner count r.1 r.2
  ok (item r.0 s.0, s.1, s.2)

-- The unrolled loop for three items.
unfoldable pub decode_three : (ℕ → List ℕ → Reads Decoded) → ℕ → List ℕ → Reads DecodedItems
decode_three inner left input = do
  first ← inner left input
  second ← inner first.1 first.2
  third ← inner second.1 second.2
  ok (item first.0 (item second.0 (item third.0 no_items)), third.1, third.2)

module _ (key_text : List ℕ → Option (List ℕ)) where
  unfoldable pub set_protocol_map_entry :
      DecodedFields → List ℕ → Decoded → Result Error DecodedFields
  set_protocol_map_entry target encoded_key value =
      set_text_entry (key_text encoded_key) value target

  unfoldable pub decode_fields :
      (ℕ → List ℕ → Reads Decoded) → ℕ → DecodedFields → ℕ → List ℕ → Reads DecodedFields
  decode_fields inner zero target left input = ok (target, left, input)
  decode_fields inner (suc count) target left input = do
    key ← read_binary input
    r ← inner left key.1
    t ← set_protocol_map_entry target key.0 r.0
    decode_fields inner count t r.1 r.2

  unfoldable pub decode_array : ℕ → ℕ → (ℕ → List ℕ → Reads Decoded) → ℕ → List ℕ → Reads Decoded
  decode_array room max_items inner left input = do
    count ← read_word 4 input
    left1 ← require_value_container count.0 room max_items left
    r ←
        if count.0 == 3
        then decode_three inner left1 count.1
        else decode_items inner count.0 left1 count.1
    ok (list r.0, r.1, r.2)

  unfoldable pub decode_object : ℕ → ℕ → (ℕ → List ℕ → Reads Decoded) → ℕ → List ℕ → Reads Decoded
  decode_object room max_items inner left input = do
    count ← read_word 4 input
    left1 ← require_value_container count.0 room max_items left
    r ← decode_fields inner count.0 no_fields left1 count.1
    ok (record_of r.0, r.1, r.2)

  -- The tests on the tag.
  unfoldable pub decode_tag : ℕ → ℕ → (ℕ → List ℕ → Reads Decoded) → ℕ → ℕ → List ℕ → Reads Decoded
  decode_tag room max_items inner tag left input =
      if tag == 0
      then ok (null_value, left, input)
      else if tag == 1
      then ok (truth true, left, input)
      else if tag == 2
      then ok (truth false, left, input)
      else if tag == 3
      then (do r ← read_word 8 input; ok (integer_value (to_signed r.0), left, r.1))
      else if tag == 4
      then (do r ← read_binary input; ok (buffer r.0, left, r.1))
      else if tag == 5
      then decode_array room max_items inner left input
      else if tag == 6
      then decode_object room max_items inner left input
      else if tag == 7
      then (do r ← read_word 8 input; ok (float r.0, left, r.1))
      else if tag == 8
      then (do r ← read_word 8 input; ok (integer_value (pos r.0), left, r.1))
      else err (unknown_tag tag)

  unfoldable pub decode_value_at : ℕ → ℕ → ℕ → List ℕ → Reads Decoded
  decode_value_at zero max_items left input = do
    tag ← read_word 1 input
    decode_tag zero max_items (λ left1 rest. err nesting) tag.0 left tag.1
  decode_value_at (suc room) max_items left input = do
    tag ← read_word 1 input
    decode_tag (suc room) max_items (decode_value_at room max_items) tag.0 left tag.1

  -- The value at an offset, and the offset behind it.
  unfoldable pub decode_value : List ℕ → ℕ → Option ℤ → Option ℤ → Result Error (Decoded × ℕ)
  decode_value input offset max_depth max_items = do
    let depth = normalize_decode_limit max_depth default_max_value_depth
    let limit = normalize_decode_limit max_items default_max_value_items
    r ← decode_value_at depth limit limit (drop offset input)
    ok (r.0, length input - length r.2)
