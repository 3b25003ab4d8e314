-- ===== src/Protocol/Value/Scalars.antt =====
-- What the decoder reads where the encoder has written a value that is no container.
use ferricstore_typescript.Common.{
  ℕ, zero, suc, ◌^◌, ◌<◌, ◌≡◌, refl, ap, inl, inr, true, false, Bool-cases, Option, List, ◌∷◌, ◌++◌,
  ltb, length, ltb→lt,
}
use mathlib.Core.List.{append_assoc}
use ferricstore_typescript.Common.Words.{ℤ, pos, negsuc, to_be}
use ferricstore_typescript.Common.Results.{ok, err}
use ferricstore_typescript.Protocol.Value.{
  Plan, tag_only, signed, binary, double_bits, unsigned, Decoded, null_value, truth, buffer, float,
  nesting, null_u32,
}
use ferricstore_typescript.Protocol.Value.Encode.{Budget, plan_scalar, plan_bigint, int64_bytes}
use ferricstore_typescript.Protocol.Value.Written.{plan_bytes}
use ferricstore_typescript.Protocol.Value.Decode.{Reads, integer_value, decode_tag, decode_value_at}
use ferricstore_typescript.Protocol.Value.Planned.{scalar_planned}
use ferricstore_typescript.Protocol.Value.Reading.{
  read_word_1, read_word_8, read_binary-write, IsInt64, read_int64, to_signed_pattern,
}

module _ (key_text : List ℕ → Option (List ℕ)) where
  -- The reader of a value one level deeper.
  abbrev pub below : ℕ → ℕ → ℕ → List ℕ → Reads Decoded
  below zero max_items = λ left rest. err nesting
  below (suc room) max_items = decode_value_at key_text room max_items

  pub decode_value_at-tag :
      (room max_items left tag : ℕ) (body : List ℕ)
      → decode_value_at key_text room max_items left (tag ∷ body)
        ≡ decode_tag key_text room max_items (below room max_items) tag left body
  unfolding decode_value_at
  decode_value_at-tag zero max_items left tag body = rw (read_word_1 tag body) refl
  decode_value_at-tag (suc room) max_items left tag body = rw (read_word_1 tag body) refl

  -- A plan is read back as a value, whatever follows it.
  abbrev pub ReadsAs : Plan → Decoded → ℕ → ℕ → List ℕ → Type 0
  ReadsAs p d room max_items rest =
      (left : ℕ)
      → decode_value_at key_text room max_items left (plan_bytes p ++ rest) ≡ ok (d, left, rest)

  pub tag_only_0 :
      (room max_items : ℕ) (rest : List ℕ) → ReadsAs (tag_only 0) null_value room max_items rest
  unfolding plan_bytes decode_tag
  tag_only_0 room max_items rest left = rw (decode_value_at-tag room max_items left 0 rest) refl

  pub tag_only_1 :
      (room max_items : ℕ) (rest : List ℕ) → ReadsAs (tag_only 1) (truth true) room max_items rest
  unfolding plan_bytes decode_tag
  tag_only_1 room max_items rest left = rw (decode_value_at-tag room max_items left 1 rest) refl

  pub tag_only_2 :
      (room max_items : ℕ) (rest : List ℕ) → ReadsAs (tag_only 2) (truth false) room max_items rest
  unfolding plan_bytes decode_tag
  tag_only_2 room max_items rest left = rw (decode_value_at-tag room max_items left 2 rest) refl

  pub signed_read :
      (z : ℤ) (room max_items : ℕ) (rest : List ℕ)
      → IsInt64 z
      → ReadsAs (signed z) (integer_value z) room max_items rest
  unfolding plan_bytes decode_tag
  signed_read z room max_items rest h left =
      rw (decode_value_at-tag room max_items left 3 (int64_bytes z ++ rest), read_int64 z rest h)
        (ap (λ (y : ℤ). ok (integer_value y, left, rest)) (to_signed_pattern z h))

  pub unsigned_read :
      (n room max_items : ℕ) (rest : List ℕ)
      → n < 2 ^ 64
      → ReadsAs (unsigned n) (integer_value (pos n)) room max_items rest
  unfolding plan_bytes decode_tag
  unsigned_read n room max_items rest h left =
      rw (decode_value_at-tag room max_items left 8 (to_be 8 n ++ rest), read_word_8 n rest h) refl

  pub double_read :
      (n room max_items : ℕ) (rest : List ℕ)
      → n < 2 ^ 64
      → ReadsAs (double_bits n) (float n) room max_items rest
  unfolding plan_bytes decode_tag
  double_read n room max_items rest h left =
      rw (decode_value_at-tag room max_items left 7 (to_be 8 n ++ rest), read_word_8 n rest h) refl

  pub binary_read :
      (bs : List ℕ) (room max_items : ℕ) (rest : List ℕ)
      → length bs < null_u32
      → ReadsAs (binary bs) (buffer bs) room max_items rest
  unfolding plan_bytes decode_tag
  binary_read bs room max_items rest h left =
      rw
        (
          append_assoc (to_be 4 (length bs)) bs rest,
          decode_value_at-tag room max_items left 4 (to_be 4 (length bs) ++ (bs ++ rest)),
          read_binary-write bs rest h,
        )
        refl

  -- A scalar leaves the budget of items as it is, on both sides.
  pub scalar_read :
      (b : Budget) (p : Plan) (b' : Budget) (q : Plan) (d : Decoded) (room max_items : ℕ)
      (rest : List ℕ)
      → plan_scalar b p ≡ ok (b', q)
      → ReadsAs p d room max_items rest
      → decode_value_at key_text room max_items b.remaining_items (plan_bytes q ++ rest)
        ≡ ok (d, b'.remaining_items, rest)
  scalar_read b p b' q d room max_items rest h reads =
      let (e, paid, same) = scalar_planned b p b' q h in rw (e, same) (reads b.remaining_items)

  pub bigint_read :
      (b : Budget) (z : ℤ) (b' : Budget) (q : Plan) (room max_items : ℕ) (rest : List ℕ)
      → plan_bigint b z ≡ ok (b', q)
      → decode_value_at key_text room max_items b.remaining_items (plan_bytes q ++ rest)
        ≡ ok (integer_value z, b'.remaining_items, rest)
  unfolding plan_bigint
  bigint_read b (negsuc n) b' q room max_items rest h = elim (Bool-cases (ltb n (2 ^ 63))) [
    | inl e ↦
        scalar_read b (signed (negsuc n)) b' q _ room max_items rest (rw e at h)
          (signed_read (negsuc n) room max_items rest (ltb→lt n (2 ^ 63) e))
    | inr e ↦ (let k = rw e at h in cc)
  ]
  bigint_read b (pos n) b' q room max_items rest h = elim (Bool-cases (ltb n (2 ^ 63))) [
    | inl e ↦
        scalar_read b (signed (pos n)) b' q _ room max_items rest (rw e at h)
          (signed_read (pos n) room max_items rest (ltb→lt n (2 ^ 63) e))
    | inr e ↦ elim (Bool-cases (ltb n (2 ^ 64))) [
      | inl f ↦
          scalar_read b (unsigned n) b' q _ room max_items rest (rw (e, f) at h)
            (unsigned_read n room max_items rest (ltb→lt n (2 ^ 64) f))
      | inr f ↦ (let k = rw (e, f) at h in cc)
    ]
  ]
