-- ===== src/Routing/Crc.antt =====
-- src/crc32.ts. A value of 32 bits is its number; a string is the list of its UTF-16 code units.
use Prim.Native.Nat.{ℕ, zero, suc, ◌+◌, ◌-◌, ◌*◌, ◌/◌, ◌^◌, bit_and, bit_or, bit_xor}
use mathlib.Core.Path.{◌≡◌, refl, sym, ap, ◌∙◌}
use mathlib.Core.Logic.{inl, inr}
use mathlib.Core.Bool.{Bool, true, false, ◌&&◌}
use mathlib.Core.List.{List, [], ◌∷◌, ◌++◌, map, append-nil}
use ferricstore_typescript.Common.{
  arith, take, drop, get_elem?, ltb, leb, ◌==◌, if◌then◌else◌, Bool-cases,
}
use ferricstore_typescript.Common.Maps.{or_zero}
use ferricstore_typescript.Common.Utf8.{
  is_lead, is_trail, paired_point, single_point, points, point_bytes, utf8_points, utf8,
}

-- 0xedb88320
abbrev polynomial : ℕ
polynomial = 3988292384

abbrev all_ones : ℕ
all_ones = 2 ^ 32 - 1

unfoldable pub table_step : ℕ → ℕ
table_step value = if bit_and value 1 == 0 then value / 2 else bit_xor polynomial (value / 2)

unfoldable pub table_entry : ℕ → ℕ → ℕ
table_entry zero value = value
table_entry (suc bits) value = table_entry bits (table_step value)

unfoldable pub counting : ℕ → ℕ → List ℕ
counting zero from = []
counting (suc n) from = from ∷ counting n (from + 1)

unfoldable pub table : List ℕ
table = map (table_entry 8) (counting 256 0)

unfoldable pub update_crc32 : ℕ → ℕ → ℕ
update_crc32 value byte =
    bit_xor (value / 256) (or_zero (get_elem? table (bit_and (bit_xor value byte) 255)))

unfoldable pub update_all : ℕ → List ℕ → ℕ
update_all value [] = value
update_all value (byte ∷ bytes) = update_all (update_crc32 value byte) bytes

unfoldable pub crc32 : List ℕ → ℕ
crc32 bytes = bit_xor (update_all all_ones bytes) all_ones

unfoldable pub is_high : ℕ → Bool
is_high unit = leb 55296 unit && leb unit 56319

unfoldable pub is_low : ℕ → Bool
is_low unit = leb 56320 unit && leb unit 57343

-- The updates for one code point.
unfoldable pub update_point : ℕ → ℕ → ℕ
update_point value point =
    if ltb point 128
    then update_crc32 value point
    else if ltb point 2048
    then update_crc32 (update_crc32 value (bit_or 192 (point / 64))) (bit_or 128 (bit_and point 63))
    else if ltb point 65536
    then update_crc32
        (update_crc32 (update_crc32 value (bit_or 224 (point / 4096)))
          (bit_or 128 (bit_and (point / 64) 63)))
        (bit_or 128 (bit_and point 63))
    else update_crc32
        (update_crc32
          (update_crc32 (update_crc32 value (bit_or 240 (point / 262144)))
            (bit_or 128 (bit_and (point / 4096) 63)))
          (bit_or 128 (bit_and (point / 64) 63)))
        (bit_or 128 (bit_and point 63))

unfoldable pub joined_point : ℕ → ℕ → ℕ
joined_point first second = 65536 + (first - 55296) * 1024 + second - 56320

-- The point of a unit that is not the first of a pair.
unfoldable pub lone_point : ℕ → ℕ
lone_point first = if is_high first then 65533 else if is_low first then 65533 else first

unfoldable pub is_pair : ℕ → ℕ → Bool
is_pair first second = is_high first && is_low second

-- The loop over the units of the range.
unfoldable pub update_text : ℕ → List ℕ → ℕ
update_text value [] = value
update_text value (first ∷ []) = update_point value (lone_point first)
update_text value (first ∷ second ∷ units) =
    let paired = update_text (update_point value (joined_point first second)) units in
    let alone = update_text (update_point value (lone_point first)) (second ∷ units) in
    if is_pair first second then paired else alone

pub crc32_utf8 : List ℕ → ℕ → ℕ → ℕ
crc32_utf8 text from to =
    bit_xor (update_text all_ones (take (to - from) (drop from text))) all_ones

update_all-append :
    (value : ℕ) (xs ys : List ℕ) → update_all value (xs ++ ys) ≡ update_all (update_all value xs) ys
unfolding update_all
update_all-append value [] ys = refl
update_all-append value (x ∷ xs) ys = update_all-append (update_crc32 value x) xs ys

update_point_lem :
    (value point : ℕ) → update_point value point ≡ update_all value (point_bytes point)
unfolding update_point update_all point_bytes
update_point_lem value point = elim (Bool-cases (ltb point 128)) [
  | inl e ↦ rw e refl
  | inr e ↦ rw e (elim (Bool-cases (ltb point 2048)) [
    | inl f ↦ rw f refl
    | inr f ↦ rw f (elim (Bool-cases (ltb point 65536)) [ inl g ↦ rw g refl | inr g ↦ rw g refl ])
  ])
]

update_point-rest :
    (value point : ℕ) (ps : List ℕ)
    → update_all (update_point value point) (utf8_points ps)
      ≡ update_all value (utf8_points (point ∷ ps))
unfolding utf8_points
update_point-rest value point ps =
    rw (update_point_lem value point)
      (sym (update_all-append value (point_bytes point) (utf8_points ps)))

no_points : (value : ℕ) → value ≡ update_all value (utf8 [])
unfolding update_all utf8_points points
no_points value = refl

alone : (value point : ℕ) → update_point value point ≡ update_all value (utf8_points (point ∷ []))
unfolding utf8_points
alone value point =
    update_point_lem value point ∙ ap (update_all value) (sym (append-nil (point_bytes point)))

-- The code's tests and sums on surrogates, against the standard's.
is_high-is_lead : (unit : ℕ) → is_high unit ≡ is_lead unit
unfolding is_high is_lead
is_high-is_lead unit = ground arith

is_low-is_trail : (unit : ℕ) → is_low unit ≡ is_trail unit
unfolding is_low is_trail
is_low-is_trail unit = ground arith

is_pair_lem : (first second : ℕ) → is_pair first second ≡ (is_lead first && is_trail second)
unfolding is_pair
is_pair_lem first second = rw (is_high-is_lead first, is_low-is_trail second) refl

lone_point-single_point : (unit : ℕ) → lone_point unit ≡ single_point unit
unfolding lone_point single_point is_high is_low
lone_point-single_point unit = ground arith

joined_point-paired_point :
    (first second : ℕ)
    → is_pair first second ≡ true
    → joined_point first second ≡ paired_point first second
unfolding joined_point paired_point is_pair is_high is_low
joined_point-paired_point first second h = ground arith

points_one : (first : ℕ) → points (first ∷ []) ≡ lone_point first ∷ []
unfolding points
points_one first = rw (lone_point-single_point first) refl

points_pair :
    (first second : ℕ) (units : List ℕ)
    → is_pair first second ≡ true
    → points (first ∷ second ∷ units) ≡ joined_point first second ∷ points units
unfolding points
points_pair first second units h =
    let k = sym (is_pair_lem first second) ∙ h in
    rw (k, joined_point-paired_point first second h) refl

points_alone :
    (first second : ℕ) (units : List ℕ)
    → is_pair first second ≡ false
    → points (first ∷ second ∷ units) ≡ lone_point first ∷ points (second ∷ units)
unfolding points
points_alone first second units h =
    let k = sym (is_pair_lem first second) ∙ h in rw (k, lone_point-single_point first) refl

update_text_lem :
    (value : ℕ) (text : List ℕ) → update_text value text ≡ update_all value (utf8 text)
unfolding update_text
update_text_lem value [] = no_points value
update_text_lem value (first ∷ []) =
    alone value (lone_point first)
    ∙ ap (λ ps. update_all value (utf8_points ps)) (sym (points_one first))
update_text_lem value (first ∷ second ∷ units) = elim (Bool-cases (is_pair first second)) [
  | inl e ↦
      rw (e, points_pair first second units e)
        (update_text_lem (update_point value (joined_point first second)) units
          ∙ update_point-rest value (joined_point first second) (points units))
  | inr e ↦
      rw (e, points_alone first second units e)
        (update_text_lem (update_point value (lone_point first)) (second ∷ units)
          ∙ update_point-rest value (lone_point first) (points (second ∷ units)))
]

-- The checksum of a range of a string, taken unit by unit, is the checksum of the bytes that the
-- range has in UTF-8.
pub crc32_utf8-crc32 :
    (text : List ℕ) (from to : ℕ)
    → crc32_utf8 text from to ≡ crc32 (utf8 (take (to - from) (drop from text)))
unfolding crc32 crc32_utf8
crc32_utf8-crc32 text from to =
    ap (λ (v : ℕ). bit_xor v all_ones)
      (update_text_lem all_ones (take (to - from) (drop from text)))
