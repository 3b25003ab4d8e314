-- ===== src/Routing/RouteCache/Runs.antt =====
-- Concrete route keys, and the cache's theorems at concrete inputs.
use Prim.Native.Nat.{ℕ}
use mathlib.Core.Path.{◌≡◌, refl}
use mathlib.Core.List.{List, [], ◌∷◌, ◌++◌}
use native.Mathlib.Decide.{ℕ_discrete}
use native.Mathlib.Omega.{arith}
use ferricstore_typescript.Routing.RouteCache.{
  Partition, auto_prefix, reset, flow_auto_bucket, flow_logical_partition_routing_key,
}
use ferricstore_typescript.Routing.RouteCache.Buckets.{text_bucket_eq_buffer_bucket}
use ferricstore_typescript.Routing.RouteCache.Lookups.{IsCache, expected, lookup_correct}

abbrev same : Discrete (List ℕ)
same = hlevel ℕ_discrete

abbrev id : List ℕ → List ℕ
id x = x

text_bucket_eq_buffer_bucket_example :
    flow_auto_bucket (Partition.text (auto_prefix ++ (50 ∷ 53 ∷ 53 ∷ [])))
    ≡ flow_auto_bucket (Partition.buffer (auto_prefix ++ (50 ∷ 53 ∷ 53 ∷ [])))
text_bucket_eq_buffer_bucket_example =
    text_bucket_eq_buffer_bucket (auto_prefix ++ (50 ∷ 53 ∷ 53 ∷ []))

reset-IsCache : IsCache same id id id (λ a b e. e) reset
reset-IsCache = record {
  distinct = tt;
  bytes_eq = refl;
  bytes_le = omega arith;
  entries_le = omega arith;
  right = λ bytes e h. cc;
}

lookup_correct_example :
    IsCache same id id id
      (λ a b e. e)
      (flow_logical_partition_routing_key same id id id (Partition.text (1 ∷ 2 ∷ [])) reset).0
    × ((flow_logical_partition_routing_key same id id id (Partition.text (1 ∷ 2 ∷ [])) reset).1
        ≡ expected same id id id (λ a b e. e) (Partition.text (1 ∷ 2 ∷ [])))
lookup_correct_example =
    lookup_correct same id id id (λ a b e. e) (Partition.text (1 ∷ 2 ∷ [])) reset reset-IsCache
