-- ===== src/Protocol/Value/Written.antt =====
-- The bytes of a plan, and that `writeValuePlan` writes them: always where they are fewer than
-- 2^32, and otherwise whenever it throws nothing.
use ferricstore_typescript.Common.{
  ℕ, ◌+◌, ◌^◌, ◌≤◌, ◌<◌, ◌≡◌, refl, ap, ◌∙◌, inl, inr, false, Bool-cases, List, [], ◌∷◌, ◌++◌, leb,
  length, length-append, arith,
}
use ferricstore_typescript.Common.Words.{to_be}
use ferricstore_typescript.Common.Results.{ok, >>=-eq-ok}
use ferricstore_typescript.Protocol.Value.{
  Plan, tag_only, signed, binary, items, entries, double_bits, unsigned, Plans, no_plans, plan,
  Entries, no_entries, entry,
}
use ferricstore_typescript.Protocol.Value.Encode.{
  int64_bytes, count_plans, count_entries, write_word, write_value_plan, write_plans, write_entries,
}

unfoldable mutual
  pub plan_bytes : Plan → List ℕ
  plan_bytes (tag_only tag) = tag ∷ []
  plan_bytes (signed z) = 3 ∷ int64_bytes z
  plan_bytes (binary bs) = 4 ∷ (to_be 4 (length bs) ++ bs)
  plan_bytes (items n ps) = 5 ∷ (to_be 4 (count_plans ps) ++ plans_bytes ps)
  plan_bytes (entries n es) = 6 ∷ (to_be 4 (count_entries es) ++ entries_bytes es)
  plan_bytes (double_bits bits) = 7 ∷ to_be 8 bits
  plan_bytes (unsigned n) = 8 ∷ to_be 8 n

  pub plans_bytes : Plans → List ℕ
  plans_bytes no_plans = []
  plans_bytes (plan p ps) = plan_bytes p ++ plans_bytes ps

  pub entries_bytes : Entries → List ℕ
  entries_bytes no_entries = []
  entries_bytes (entry k p es) = to_be 4 (length k) ++ (k ++ (plan_bytes p ++ entries_bytes es))

write_word-ok : (n : ℕ) (bs : List ℕ) → write_word n ≡ ok bs → to_be 4 n ≡ bs
unfolding write_word
write_word-ok n bs h = elim (Bool-cases (leb (2 ^ 32) n)) [
  | inl e ↦ (let g = rw e at h in cc)
  | inr e ↦ (let g = rw e at h in cc)
]

write_word_fits : (n : ℕ) → n < 2 ^ 32 → write_word n ≡ ok (to_be 4 n)
unfolding write_word
write_word_fits n h = let e : leb (2 ^ 32) n ≡ false = ground arith in rw e refl

mutual
  unfolding write_value_plan plan_bytes

  pub write_value_plan-ok :
      (p : Plan) (written : List ℕ) → write_value_plan p ≡ ok written → plan_bytes p ≡ written
  write_value_plan-ok (tag_only tag) written h = cc
  write_value_plan-ok (signed z) written h = cc
  write_value_plan-ok (binary bs) written h =
      let (size, e, f) = >>=-eq-ok (write_word (length bs)) _ h in
      let g = write_word-ok (length bs) size e in
      let k : 4 ∷ (size ++ bs) ≡ written = cc in ap (λ t. 4 ∷ (t ++ bs)) g ∙ k
  write_value_plan-ok (items n ps) written h =
      let (count, e, h1) = >>=-eq-ok (write_word (count_plans ps)) _ h in
      let (body, f, h2) = >>=-eq-ok (write_plans ps) _ h1 in
      let k : 5 ∷ (count ++ body) ≡ written = cc in
      ap (λ t. 5 ∷ (t ++ plans_bytes ps)) (write_word-ok (count_plans ps) count e)
      ∙ ap (λ t. 5 ∷ (count ++ t)) (write_plans-ok ps body f)
      ∙ k
  write_value_plan-ok (entries n es) written h =
      let (count, e, h1) = >>=-eq-ok (write_word (count_entries es)) _ h in
      let (body, f, h2) = >>=-eq-ok (write_entries es) _ h1 in
      let k : 6 ∷ (count ++ body) ≡ written = cc in
      ap (λ t. 6 ∷ (t ++ entries_bytes es)) (write_word-ok (count_entries es) count e)
      ∙ ap (λ t. 6 ∷ (count ++ t)) (write_entries-ok es body f)
      ∙ k
  write_value_plan-ok (double_bits bits) written h = cc
  write_value_plan-ok (unsigned n) written h = cc

  write_plans-ok :
      (ps : Plans) (written : List ℕ) → write_plans ps ≡ ok written → plans_bytes ps ≡ written
  write_plans-ok no_plans written h = cc
  write_plans-ok (plan p ps) written h =
      let (first, e, h1) = >>=-eq-ok (write_value_plan p) _ h in
      let (others, f, h2) = >>=-eq-ok (write_plans ps) _ h1 in
      let k : first ++ others ≡ written = cc in
      ap (λ t. t ++ plans_bytes ps) (write_value_plan-ok p first e)
      ∙ ap (λ t. first ++ t) (write_plans-ok ps others f)
      ∙ k

  write_entries-ok :
      (es : Entries) (written : List ℕ) → write_entries es ≡ ok written → entries_bytes es ≡ written
  write_entries-ok no_entries written h = cc
  write_entries-ok (entry key p es) written h =
      let (size, e, h1) = >>=-eq-ok (write_word (length key)) _ h in
      let (value, f, h2) = >>=-eq-ok (write_value_plan p) _ h1 in
      let (others, g, h3) = >>=-eq-ok (write_entries es) _ h2 in
      let k : size ++ (key ++ (value ++ others)) ≡ written = cc in
      ap (λ t. t ++ (key ++ (plan_bytes p ++ entries_bytes es))) (write_word-ok (length key) size e)
      ∙ ap (λ t. size ++ (key ++ (t ++ entries_bytes es))) (write_value_plan-ok p value f)
      ∙ ap (λ t. size ++ (key ++ (value ++ t))) (write_entries-ok es others g)
      ∙ k

plan_bytes_pos : (p : Plan) → 0 < length (plan_bytes p)
unfolding plan_bytes
plan_bytes_pos (tag_only tag) = omega arith
plan_bytes_pos (signed z) = omega arith
plan_bytes_pos (binary bs) = omega arith
plan_bytes_pos (items n ps) = omega arith
plan_bytes_pos (entries n es) = omega arith
plan_bytes_pos (double_bits bits) = omega arith
plan_bytes_pos (unsigned n) = omega arith

-- Each member takes a byte at least.
count_plans_le : (ps : Plans) → count_plans ps ≤ length (plans_bytes ps)
unfolding count_plans plan_bytes
count_plans_le no_plans = omega arith
count_plans_le (plan p ps) =
    omega
      (arith, plan_bytes_pos p, count_plans_le ps, length-append (plan_bytes p) (plans_bytes ps))

length-entries_bytes :
    (key : List ℕ) (p : Plan) (es : Entries)
    → length (entries_bytes (entry key p es))
      ≡ 4 + length key + length (plan_bytes p) + length (entries_bytes es)
unfolding plan_bytes
length-entries_bytes key p es = omega (
  arith,
  length-append (to_be 4 (length key)) (key ++ (plan_bytes p ++ entries_bytes es)),
  length-append key (plan_bytes p ++ entries_bytes es),
  length-append (plan_bytes p) (entries_bytes es),
)

count_entries_le : (es : Entries) → count_entries es ≤ length (entries_bytes es)
unfolding count_entries plan_bytes
count_entries_le no_entries = omega arith
count_entries_le (entry key p es) =
    omega (arith, count_entries_le es, length-entries_bytes key p es)

mutual
  unfolding write_value_plan plan_bytes

  pub write_value_plan_fits :
      (p : Plan) → length (plan_bytes p) < 2 ^ 32 → write_value_plan p ≡ ok (plan_bytes p)
  write_value_plan_fits (tag_only tag) h = refl
  write_value_plan_fits (signed z) h = refl
  write_value_plan_fits (binary bs) h =
      rw (write_word_fits (length bs) (omega (arith, length-append (to_be 4 (length bs)) bs))) refl
  write_value_plan_fits (items n ps) h =
      let l = length-append (to_be 4 (count_plans ps)) (plans_bytes ps) in
      rw
        (
          write_word_fits (count_plans ps) (omega (arith, l, count_plans_le ps)),
          write_plans_fits ps (omega (arith, l)),
        )
        refl
  write_value_plan_fits (entries n es) h =
      let l = length-append (to_be 4 (count_entries es)) (entries_bytes es) in
      rw
        (
          write_word_fits (count_entries es) (omega (arith, l, count_entries_le es)),
          write_entries_fits es (omega (arith, l)),
        )
        refl
  write_value_plan_fits (double_bits bits) h = refl
  write_value_plan_fits (unsigned n) h = refl

  write_plans_fits :
      (ps : Plans) → length (plans_bytes ps) < 2 ^ 32 → write_plans ps ≡ ok (plans_bytes ps)
  write_plans_fits no_plans h = refl
  write_plans_fits (plan p ps) h =
      let l = length-append (plan_bytes p) (plans_bytes ps) in
      rw (write_value_plan_fits p (omega (arith, l)), write_plans_fits ps (omega (arith, l))) refl

  write_entries_fits :
      (es : Entries) → length (entries_bytes es) < 2 ^ 32 → write_entries es ≡ ok (entries_bytes es)
  write_entries_fits no_entries h = refl
  write_entries_fits (entry key p es) h =
      let l = length-entries_bytes key p es in
      rw
        (
          write_word_fits (length key) (omega (arith, l)),
          write_value_plan_fits p (omega (arith, l)),
          write_entries_fits es (omega (arith, l)),
        )
        refl
