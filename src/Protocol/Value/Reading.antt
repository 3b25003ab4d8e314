-- ===== src/Protocol/Value/Reading.antt =====
-- The readers on what the writers have written.
use ferricstore_typescript.Common.{
  ℕ, suc, ◌+◌, ◌-◌, ◌^◌, ◌≤◌, ◌<◌, ◌≡◌, refl, sym, ap, ◌∙◌, false, List, [], ◌∷◌, ◌++◌, ◌==◌,
  le→ltb_false, length, length-append, take-append, drop-append, arith,
}
use ferricstore_typescript.Common.Words.{ℤ, pos, negsuc, to_be, of_be-to_be_4, of_be-to_be_8}
use ferricstore_typescript.Common.Results.{Result, ok, err, ◌>>=◌}
use ferricstore_typescript.Protocol.Value.{Decoded, no_items, item, null_u32}
use ferricstore_typescript.Protocol.Value.Encode.{int64_bytes}
use ferricstore_typescript.Protocol.Value.Decode.{
  Reads, read_bytes, read_word, read_binary, consume_decode_items, require_value_container,
  to_signed, decode_items, decode_three,
}

pub read_bytes-append : (xs ys : List ℕ) → read_bytes (length xs) (xs ++ ys) ≡ ok (xs, ys)
unfolding read_bytes
read_bytes-append xs ys =
    rw
      (
        le→ltb_false (length (xs ++ ys)) (length xs) (omega (arith, length-append xs ys)),
        take-append xs ys,
        drop-append xs ys,
      )
      refl

pub read_word_1 : (tag : ℕ) (ys : List ℕ) → read_word 1 (tag ∷ ys) ≡ ok (tag, ys)
unfolding read_word
read_word_1 tag ys = rw (read_bytes-append (tag ∷ []) ys) (ap (λ (n : ℕ). ok (n, ys)) (omega arith))

pub read_word_4 : (n : ℕ) (ys : List ℕ) → n < 2 ^ 32 → read_word 4 (to_be 4 n ++ ys) ≡ ok (n, ys)
unfolding read_word
read_word_4 n ys h =
    rw (read_bytes-append (to_be 4 n) ys) (ap (λ (k : ℕ). ok (k, ys)) (of_be-to_be_4 n h))

pub read_word_8 : (n : ℕ) (ys : List ℕ) → n < 2 ^ 64 → read_word 8 (to_be 8 n ++ ys) ≡ ok (n, ys)
unfolding read_word
read_word_8 n ys h =
    rw (read_bytes-append (to_be 8 n) ys) (ap (λ (k : ℕ). ok (k, ys)) (of_be-to_be_8 n h))

pub read_binary-write :
    (bs rest : List ℕ)
    → length bs < null_u32
    → read_binary (to_be 4 (length bs) ++ (bs ++ rest)) ≡ ok (bs, rest)
unfolding read_binary
read_binary-write bs rest h =
    rw (read_word_4 (length bs) (bs ++ rest) (omega arith))
      (let e : (length bs == null_u32) ≡ false = ground arith in rw e (read_bytes-append bs rest))

-- An integer of 64 bits.
abbrev pub IsInt64 : ℤ → Type 0
IsInt64 (pos n) = n < 2 ^ 63
IsInt64 (negsuc n) = n < 2 ^ 63

abbrev pub pattern_of : ℤ → ℕ
pattern_of (pos n) = n
pattern_of (negsuc n) = 2 ^ 64 - (n + 1)

pub read_int64 :
    (z : ℤ) (rest : List ℕ)
    → IsInt64 z
    → read_word 8 (int64_bytes z ++ rest) ≡ ok (pattern_of z, rest)
unfolding int64_bytes
read_int64 (pos n) rest h = read_word_8 n rest (omega arith)
read_int64 (negsuc n) rest h = read_word_8 (2 ^ 64 - (n + 1)) rest (omega arith)

pub to_signed_pattern : (z : ℤ) → IsInt64 z → to_signed (pattern_of z) ≡ z
unfolding to_signed
to_signed_pattern (pos n) h = ground arith
to_signed_pattern (negsuc n) h = ground arith

pub require_value_container-ok :
    (count room max_items left : ℕ)
    → count ≤ max_items
    → count ≤ left
    → require_value_container count (suc room) max_items left ≡ ok (left - count)
unfolding require_value_container consume_decode_items
require_value_container-ok count room max_items left h k = ground arith

bind_cong :
    {E A B : Type 0} (m : Result E A) (f g : A → Result E B)
    → ((a : A) → f a ≡ g a)
    → (m >>= f) ≡ (m >>= g)
bind_cong (ok a) f g h = h a
bind_cong (err e) f g h = refl

bind_assoc :
    {E A B C : Type 0} (m : Result E A) (f : A → Result E B) (g : B → Result E C)
    → ((m >>= f) >>= g) ≡ (m >>= λ a. f a >>= g)
bind_assoc (ok a) f g = refl
bind_assoc (err e) f g = refl

-- The unrolled loop reads an array of three items as the loop does, its errors included.
pub decode_three_eq_items :
    (inner : ℕ → List ℕ → Reads Decoded) (left : ℕ) (input : List ℕ)
    → decode_three inner left input ≡ decode_items inner 3 left input
unfolding decode_three decode_items
decode_three_eq_items inner left input = bind_cong (inner left input) _ _ (λ first. sym (
    bind_assoc (inner first.1 first.2) _ _
    ∙ bind_cong (inner first.1 first.2) _ _ (λ second.
      bind_assoc
        (inner second.1 second.2 >>= λ (r : Decoded × ℕ × List ℕ). ok (item r.0 no_items, r.1, r.2))
        _ _
      ∙ bind_assoc (inner second.1 second.2) _ _)))
