-- ===== src/Routing/Slots/Runs.antt =====
-- Concrete slots, and the theorems at concrete keys.
use Prim.Native.Nat.{bit_and}
use mathlib.Core.Path.{◌≡◌, refl}
use mathlib.Core.List.{[], ◌∷◌}
use native.Mathlib.Omega.{arith}
use ferricstore_typescript.Common.Utf8.{utf8}
use ferricstore_typescript.Routing.Crc.{
  crc32, crc32_utf8, crc32_utf8-crc32, update_all, update_crc32, table, table_entry, table_step,
  counting,
}
use ferricstore_typescript.Routing.Slots.{
  Key, routing_slot_for_key, route_slot_mask, hash_tag_or_key,
}
use ferricstore_typescript.Routing.Slots.Tags.{text_slot, same_tag_same_slot}
use ferricstore_typescript.Common.{take, drop}

-- A pair of surrogates between two letters.
crc32_utf8-crc32_example :
    crc32_utf8 (97 ∷ 55357 ∷ 56832 ∷ 98 ∷ []) 0 4
    ≡ crc32 (utf8 (take 4 (drop 0 (97 ∷ 55357 ∷ 56832 ∷ 98 ∷ []))))
crc32_utf8-crc32_example = crc32_utf8-crc32 (97 ∷ 55357 ∷ 56832 ∷ 98 ∷ []) 0 4

text_slot_example :
    routing_slot_for_key (Key.text (97 ∷ 123 ∷ 120 ∷ 125 ∷ []))
    ≡ bit_and (crc32 (utf8 (hash_tag_or_key (97 ∷ 123 ∷ 120 ∷ 125 ∷ [])))) route_slot_mask
text_slot_example = text_slot (97 ∷ 123 ∷ 120 ∷ 125 ∷ [])

same_tag_same_slot_example :
    (routing_slot_for_key (Key.text (97 ∷ 123 ∷ 120 ∷ 125 ∷ 98 ∷ []))
      ≡ routing_slot_for_key (Key.text (123 ∷ 120 ∷ 125 ∷ [])))
    × (routing_slot_for_key (Key.buffer (97 ∷ 123 ∷ 120 ∷ 125 ∷ 98 ∷ []))
        ≡ routing_slot_for_key (Key.buffer (123 ∷ 120 ∷ 125 ∷ [])))
same_tag_same_slot_example =
    same_tag_same_slot (120 ∷ []) (97 ∷ []) [] (98 ∷ []) [] (λ e. omega arith, tt) tt
      (λ e. omega arith, tt) (omega arith)

-- The check value of this polynomial: the checksum of "123456789".
check_value : crc32 (49 ∷ 50 ∷ 51 ∷ 52 ∷ 53 ∷ 54 ∷ 55 ∷ 56 ∷ 57 ∷ []) ≡ 3421780262
unfolding crc32 update_all update_crc32 table table_entry table_step counting
check_value = refl
