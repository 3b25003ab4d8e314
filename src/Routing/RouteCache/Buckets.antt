-- ===== src/Routing/RouteCache/Buckets.antt =====
-- The automatic buckets: the expression for strings and the loop for buffers.
use Prim.Native.Nat.{ℕ, ◌-◌}
use mathlib.Core.Path.{◌≡◌, refl}
use mathlib.Core.Logic.{inl, inr}
use mathlib.Core.Bool.{Bool, true, false, not, ◌||◌}
use mathlib.Core.Option.{Option, none, some}
use mathlib.Core.List.{List, [], ◌∷◌}
use native.Mathlib.Omega.{arith}
use ferricstore_typescript.Common.{length, length-drop, drop, ltb, ◌==◌, if◌then◌else◌, Bool-cases}
use ferricstore_typescript.Routing.RouteCache.{
  Partition, auto_prefix, is_digit, matches_number, number_of, below_256, match_text,
  number_below_256, has_prefix, read_bucket, starts_with_zero, bucket_behind, flow_auto_bucket,
}

abbrev matched : List ℕ → Option (List ℕ)
matched cs = if matches_number cs then some cs else none

match_text-has_prefix :
    (ps cs : List ℕ)
    → match_text ps cs ≡ (if has_prefix ps cs then matched (drop (length ps) cs) else none)
unfolding match_text has_prefix
match_text-has_prefix [] cs = refl
match_text-has_prefix (p ∷ ps) [] = refl
match_text-has_prefix (p ∷ ps) (c ∷ cs) = elim (Bool-cases (c == p)) [
  | inl e ↦ rw e (match_text-has_prefix ps cs)
  | inr e ↦ rw e refl
]

-- The buffer's branch behind the prefix.
abbrev by_loop : List ℕ → Option ℕ
by_loop cs = if ltb (length cs) 1 || ltb 3 (length cs) then none else bucket_behind (length cs) cs

matched-by_loop : (cs : List ℕ) → number_below_256 (matched cs) ≡ by_loop cs
unfolding matches_number number_below_256 is_digit number_of below_256 bucket_behind read_bucket
    starts_with_zero
matched-by_loop [] = ground arith
matched-by_loop (a ∷ []) = ground arith
matched-by_loop (a ∷ b ∷ []) = ground arith
matched-by_loop (a ∷ b ∷ c ∷ []) = ground arith
matched-by_loop (a ∷ b ∷ c ∷ d ∷ ds) = ground arith

matched_if :
    (b : Bool) (cs : List ℕ)
    → number_below_256 (if b then matched cs else none) ≡ (if b then by_loop cs else none)
unfolding number_below_256
matched_if true cs = matched-by_loop cs
matched_if false cs = refl

swap :
    {A : Type 0} (b out : Bool) (x : Option A)
    → (if b then (if out then none else x) else none)
      ≡ (if out then none else if not b then none else x)
swap true true x = refl
swap true false x = refl
swap false true x = refl
swap false false x = refl

-- A string and the buffer of its code units are recognised as the same automatic bucket, or both
-- as none.
pub text_bucket_eq_buffer_bucket :
    (cs : List ℕ) → flow_auto_bucket (Partition.text cs) ≡ flow_auto_bucket (Partition.buffer cs)
unfolding flow_auto_bucket
text_bucket_eq_buffer_bucket cs =
    let l : length (drop 14 cs) ≡ length cs - 14 = length-drop 14 cs in
    rw
      (match_text-has_prefix auto_prefix cs, matched_if (has_prefix auto_prefix cs) (drop 14 cs), l)
      (swap (has_prefix auto_prefix cs) (ltb (length cs - 14) 1 || ltb 3 (length cs - 14))
        (bucket_behind (length cs - 14) (drop 14 cs)))
