-- ===== src/Routing/Slots/Tags.antt =====
-- Keys with the same tag in braces have the same slot, as strings and as buffers.
use Prim.Native.Nat.{ℕ, ◌+◌, ◌-◌, ◌≤◌, bit_and}
use mathlib.Core.Path.{◌≡◌, refl, sym, ap, ◌∙◌}
use mathlib.Core.Logic.{inl, inr, ◌≢◌}
use mathlib.Core.Option.{Option, none, some}
use mathlib.Core.List.{List, [], ◌∷◌, ◌++◌}
use native.Mathlib.Omega.{arith}
use ferricstore_typescript.Common.{
  All, length, take, drop, ltb, lt→ltb, Bool-cases, take-append, take_all, drop-append_ge,
}
use ferricstore_typescript.Routing.Crc.{crc32, crc32_utf8-crc32}
use ferricstore_typescript.Common.Utf8.{utf8}
use ferricstore_typescript.Routing.Slots.{
  Key, find, index_of, tag_to, tag_from, hash_tag_or_key, range_to, range_from, string_hash_range,
  routing_slot_for_key, route_slot_mask,
}

abbrev pub IsNot : ℕ → ℕ → Type 0
IsNot c x = x ≢ c

find_first :
    (c i : ℕ) (xs ys : List ℕ) → All (IsNot c) xs → find c i (xs ++ (c ∷ ys)) ≡ some (i + length xs)
unfolding find
find_first c i [] ys a = ground arith
find_first c i (x ∷ xs) ys (n, a) = ground (arith, find_first c (i + 1) xs ys a)

drop_past : (pre rest : List ℕ) (x : ℕ) → drop (length pre + 1) (pre ++ (x ∷ rest)) ≡ rest
drop_past pre rest x =
    let n : length pre + 1 - length pre ≡ 1 = omega arith in
    drop-append_ge (length pre + 1) pre (x ∷ rest) (omega arith) ∙ rw n refl

-- A key with a tag in its first braces is hashed by that tag alone.
hash_tag_found :
    (pre tag post : List ℕ)
    → All (IsNot 123) pre
    → All (IsNot 125) tag
    → 1 ≤ length tag
    → hash_tag_or_key (pre ++ (123 ∷ (tag ++ (125 ∷ post)))) ≡ tag
unfolding hash_tag_or_key tag_from tag_to index_of
hash_tag_found pre tag post a b h =
    let s : ℕ = length pre in
    let z : 0 + length pre ≡ length pre = omega arith in
    let d = drop_past pre (tag ++ (125 ∷ post)) 123 in
    let n : s + 1 + length tag - (s + 1) ≡ length tag = omega arith in
    rw
      (
        find_first 123 0 pre (tag ++ (125 ∷ post)) a,
        z,
        d,
        find_first 125 (s + 1) tag post b,
        lt→ltb (s + 1) (s + 1 + length tag) (omega arith),
        n,
      )
      (ap (take (length tag)) d ∙ take-append tag (125 ∷ post))

cut_to :
    (key : List ℕ) (start : ℕ) (o : Option ℕ)
    → take ((range_to key start o).1 - (range_to key start o).0) (drop (range_to key start o).0 key)
      ≡ tag_to key start o
unfolding range_to tag_to
cut_to key start none = take_all (length key - 0) key (omega arith)
cut_to key start (some end) = elim (Bool-cases (ltb (start + 1) end)) [
  | inl e ↦ rw e refl
  | inr e ↦ rw e (take_all (length key - 0) key (omega arith))
]

cut_from :
    (key : List ℕ) (o : Option ℕ)
    → take ((range_from key o).1 - (range_from key o).0) (drop (range_from key o).0 key)
      ≡ tag_from key o
unfolding range_from tag_from
cut_from key none = take_all (length key - 0) key (omega arith)
cut_from key (some start) = cut_to key start (index_of 125 (start + 1) key)

-- The slot of a string is that of the bytes that the string's tag, or the string itself where it
-- has none, has in UTF-8: the range that is read without a copy is the tag that is cut out.
pub text_slot :
    (units : List ℕ)
    → routing_slot_for_key (Key.text units)
      ≡ bit_and (crc32 (utf8 (hash_tag_or_key units))) route_slot_mask
unfolding routing_slot_for_key string_hash_range hash_tag_or_key
text_slot units =
    let r : ℕ × ℕ = range_from units (index_of 123 0 units) in
    ap (λ (v : ℕ). bit_and v route_slot_mask)
      (crc32_utf8-crc32 units r.0 r.1
        ∙ ap (λ (x : List ℕ). crc32 (utf8 x)) (cut_from units (index_of 123 0 units)))

-- Two keys that have the same tag in their first braces, which is not empty, have the same slot,
-- whatever stands around the braces, as strings and as buffers.
pub same_tag_same_slot :
    (tag pre pre' post post' : List ℕ)
    → All (IsNot 123) pre
    → All (IsNot 123) pre'
    → All (IsNot 125) tag
    → 1 ≤ length tag
    → (routing_slot_for_key (Key.text (pre ++ (123 ∷ (tag ++ (125 ∷ post)))))
        ≡ routing_slot_for_key (Key.text (pre' ++ (123 ∷ (tag ++ (125 ∷ post'))))))
      × (routing_slot_for_key (Key.buffer (pre ++ (123 ∷ (tag ++ (125 ∷ post)))))
          ≡ routing_slot_for_key (Key.buffer (pre' ++ (123 ∷ (tag ++ (125 ∷ post'))))))
unfolding routing_slot_for_key
same_tag_same_slot tag pre pre' post post' a a' b h =
    let e = hash_tag_found pre tag post a b h ∙ sym (hash_tag_found pre' tag post' a' b h) in
    (
      text_slot (pre ++ (123 ∷ (tag ++ (125 ∷ post))))
          ∙ (ap (λ (x : List ℕ). bit_and (crc32 (utf8 x)) route_slot_mask) e
              ∙ sym (text_slot (pre' ++ (123 ∷ (tag ++ (125 ∷ post')))))),
      ap (λ (x : List ℕ). bit_and (crc32 x) route_slot_mask) e,
    )
