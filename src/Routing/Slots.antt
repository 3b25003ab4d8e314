-- ===== src/Routing/Slots.antt =====
-- The slot of a key: `hashTagOrKey`, `routingSlotForKey` and `stringHashRange` of
-- src/topology-utilities.ts, and the test of src/key-slot-validation.ts on commands with many keys.
pub mod Tags
pub mod Runs
use Prim.Native.Nat.{ℕ, zero, suc, ◌+◌, ◌-◌, ◌%◌, bit_and}
use mathlib.Core.Path.{◌≡◌}
use mathlib.Core.Bool.{Bool, true, false, not, ◌||◌}
use mathlib.Core.Option.{Option, none, some}
use mathlib.Core.List.{List, [], ◌∷◌}
use ferricstore_typescript.Common.{length, take, drop, ltb, ◌==◌, if◌then◌else◌}
use ferricstore_typescript.Common.Results.{Result, ok, err, ◌>>◌, throw_if}
use ferricstore_typescript.Routing.Crc.{crc32, crc32_utf8}

abbrev pub open_brace : ℕ
open_brace = 123

abbrev pub close_brace : ℕ
close_brace = 125

abbrev pub route_slot_mask : ℕ
route_slot_mask = 1023

unfoldable pub find : ℕ → ℕ → List ℕ → Option ℕ
find wanted index [] = none
find wanted index (x ∷ xs) =
    let rest = find wanted (index + 1) xs in if x == wanted then some index else rest

-- `key.indexOf(wanted, from)`; none is -1.
unfoldable pub index_of : ℕ → ℕ → List ℕ → Option ℕ
index_of wanted from key = find wanted from (drop from key)

unfoldable pub tag_to : List ℕ → ℕ → Option ℕ → List ℕ
tag_to key start none = key
tag_to key start (some end) =
    if ltb (start + 1) end then take (end - (start + 1)) (drop (start + 1) key) else key

unfoldable pub tag_from : List ℕ → Option ℕ → List ℕ
tag_from key none = key
tag_from key (some start) = tag_to key start (index_of close_brace (start + 1) key)

pub hash_tag_or_key : List ℕ → List ℕ
hash_tag_or_key key = tag_from key (index_of open_brace 0 key)

unfoldable pub range_to : List ℕ → ℕ → Option ℕ → ℕ × ℕ
range_to key start_brace none = (0, length key)
range_to key start_brace (some end_brace) =
    if ltb (start_brace + 1) end_brace then (start_brace + 1, end_brace) else (0, length key)

unfoldable pub range_from : List ℕ → Option ℕ → ℕ × ℕ
range_from key none = (0, length key)
range_from key (some start_brace) =
    range_to key start_brace (index_of close_brace (start_brace + 1) key)

pub string_hash_range : List ℕ → ℕ × ℕ
string_hash_range key = range_from key (index_of open_brace 0 key)

-- A string as its UTF-16 code units, or a buffer as its bytes.
pub data Key : Type 0 where
  text buffer : List ℕ → Key

unfoldable pub routing_slot_for_key : Key → ℕ
routing_slot_for_key (text key) =
    bit_and (crc32_utf8 key (string_hash_range key).0 (string_hash_range key).1) route_slot_mask
routing_slot_for_key (buffer key) = bit_and (crc32 (hash_tag_or_key key)) route_slot_mask

-- An argument that is no key: neither a string nor a buffer.
pub data Argument : Type 0 where
  key : Key → Argument
  value : Argument

pub data SlotError : Type 0 where
  keys_must_share_a_slot : SlotError

unfoldable pub or_expected : Option ℕ → ℕ → ℕ
or_expected none slot = slot
or_expected (some expected) slot = expected

-- The loop over the keys of key, value, key, value, ...; it gives whether the command has been
-- found valid, to be noted, or has been left without a verdict.
unfoldable pub check_slots : Option ℕ → List Argument → Result SlotError Bool
check_slots expected [] = ok true
check_slots expected (value ∷ rest) = ok false
check_slots expected (key k ∷ []) =
    let slot = routing_slot_for_key k in
    if slot == or_expected expected slot then ok true else err keys_must_share_a_slot
check_slots expected (key k ∷ v ∷ rest) =
    let slot = routing_slot_for_key k in
    let others = check_slots (some (or_expected expected slot)) rest in
    if slot == or_expected expected slot then others else err keys_must_share_a_slot

-- The arguments behind the command's name; `validated` is whether the command has been noted.
pub assert_key_value_command_shares_slot : Bool → List Argument → Result SlotError Bool
assert_key_value_command_shares_slot validated arguments =
    let count = length arguments + 1 in
    if validated || (ltb count 3 || (count % 2 == 0))
    then ok validated
    else check_slots none arguments
