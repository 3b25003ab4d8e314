-- ===== src/Routing/RouteCache/Lookups.antt =====
-- What a lookup gives and what it leaves.
use Prim.Native.Nat.{ℕ, ◌+◌, ◌≤◌, ◌<◌}
use mathlib.Core.Path.{◌≡◌, refl, ap}
use mathlib.Core.Logic.{inl, inr}
use mathlib.Core.Bool.{false, ◌||◌, ◌&&◌}
use mathlib.Core.Option.{Option, none, some}
use mathlib.Core.List.{List, [], ◌∷◌}
use native.Mathlib.Omega.{arith}
use ferricstore_typescript.Common.{length, ltb, leb, Bool-cases, leb→le}
use ferricstore_typescript.Common.Maps.{
  get, delete, get-delete_self, set-Distinct, delete-Distinct, length-delete, length-set_le,
}
use ferricstore_typescript.Routing.RouteCache.{
  CacheEntry, RouteCache, Partition, max_cache_bytes, max_cache_entries,
  max_cacheable_partition_bytes, must_evict, evict_loop, store, hit, miss, cached_route, hash_route,
  route_bytes, route_partition, auto_route, flow_auto_bucket, flow_logical_partition_routing_key,
  estimated_entry_bytes,
}
use ferricstore_typescript.Routing.RouteCache.Validity.{
  IsValid, total, total-delete, total-set, set-IsRight, delete-IsRight, evict_loop-Evicted,
}

-- There is room when nothing must be evicted.
has_room :
    (entries bytes used : ℕ)
    → (leb max_cache_entries entries || (ltb 0 entries && ltb max_cache_bytes (used + bytes)))
      ≡ false
    → (entries < max_cache_entries) × (1 ≤ entries → used + bytes ≤ max_cache_bytes)
has_room entries bytes used h = ground arith

total_of_none : (m : List (List ℕ × CacheEntry)) → length m ≡ 0 → total m ≡ 0
total_of_none [] h = refl
total_of_none (x ∷ m) h = absurd (omega arith)

module _ (same_text : Discrete (List ℕ)) (base64 base64url_sha256 utf8 : List ℕ → List ℕ)
    (base64_injective : (a b : List ℕ) → base64 a ≡ base64 b → a ≡ b) where
  abbrev route : List ℕ → List ℕ
  route = hash_route same_text base64 base64url_sha256 utf8

  -- The cache in terms of the parameters.
  abbrev pub IsCache : RouteCache → Type 0
  IsCache s = IsValid same_text base64 route base64_injective s

  hit-IsCache :
      (bytes : List ℕ) (e : CacheEntry) (s : RouteCache)
      → get same_text (base64 bytes) s.entries ≡ some e
      → IsCache s
      → IsCache (hit same_text (base64 bytes) e s)
  unfolding hit
  hit-IsCache bytes e s g v =
      let k : List ℕ = base64 bytes in
      let m : List (List ℕ × CacheEntry) = delete same_text k s.entries in
      let a = get-delete_self same_text k s.entries v.distinct in
      let t1 = total-delete same_text base64 route base64_injective k e s.entries g in
      let t2 = total-set same_text base64 route base64_injective k e m a in
      let l1 = length-delete same_text k e s.entries g in
      let l2 = length-set_le same_text k e m in
      record {
        distinct = set-Distinct same_text k e m (delete-Distinct same_text k s.entries v.distinct);
        bytes_eq = rw (v.bytes_eq) (omega arith);
        bytes_le = v.bytes_le;
        entries_le = omega (arith, v.entries_le);
        right =
            set-IsRight same_text base64 route base64_injective bytes e m (v.right bytes e g) (
              delete-IsRight same_text base64 route base64_injective k s.entries v.distinct
                v.right);
      }

  store-IsCache :
      (bytes : List ℕ) (n : ℕ) (s : RouteCache)
      → get same_text (base64 bytes) s.entries ≡ none
      → must_evict same_text n s ≡ false
      → IsCache s
      → IsCache (store same_text (base64 bytes) n (route bytes) s)
  unfolding store must_evict
  store-IsCache bytes n s g f v =
      let k : List ℕ = base64 bytes in
      let e : CacheEntry = record { bytes = n; route_key = route bytes } in
      let (r1, r2) = has_room (length s.entries) n s.cache_bytes f in
      let t = total-set same_text base64 route base64_injective k e s.entries g in
      let z = total_of_none s.entries in
      let l = length-set_le same_text k e s.entries in
      elim (Bool-cases (leb n max_cache_bytes)) [
        | inl b ↦ rw b (record {
          distinct = set-Distinct same_text k e s.entries v.distinct;
          bytes_eq = rw (v.bytes_eq) (omega arith);
          bytes_le = ground (arith, v.bytes_eq, leb→le n max_cache_bytes);
          entries_le = omega arith;
          right =
              set-IsRight same_text base64 route base64_injective bytes e s.entries refl v.right;
        })
        | inr b ↦ rw b v
      ]

  miss-IsCache :
      (bytes : List ℕ) (s : RouteCache)
      → get same_text (base64 bytes) s.entries ≡ none
      → IsCache s
      → IsCache (miss same_text (base64 bytes) (route bytes) s)
  unfolding miss
  miss-IsCache bytes s g v =
      let s1 : RouteCache = record s { cache_misses = s.cache_misses + 1 } in
      let v1 : IsCache s1 = record {
        distinct = v.distinct;
        bytes_eq = v.bytes_eq;
        bytes_le = v.bytes_le;
        entries_le = v.entries_le;
        right = v.right;
      } in
      let n : ℕ = estimated_entry_bytes (base64 bytes) (route bytes) in
      let (w, f, a) =
        evict_loop-Evicted same_text base64 route base64_injective (length s1.entries) n s1
          (omega arith) v1 in
      store-IsCache bytes n (evict_loop same_text (length s1.entries) n s1) (a (base64 bytes) g) f w

  -- The route key that a partition has without a cache.
  abbrev pub expected_bytes : Option ℕ → List ℕ → List ℕ
  expected_bytes (some bucket) bytes = auto_route bucket
  expected_bytes none bytes = route bytes

  abbrev pub expected : Partition → Option (List ℕ)
  expected (Partition.text cs) =
      some (expected_bytes (flow_auto_bucket (Partition.text cs)) (utf8 cs))
  expected (Partition.buffer bs) = some (expected_bytes (flow_auto_bucket (Partition.buffer bs)) bs)
  expected Partition.other = none

  cached_route_lem :
      (bytes : List ℕ) (o : Option CacheEntry) (s : RouteCache)
      → get same_text (base64 bytes) s.entries ≡ o
      → IsCache s
      → IsCache (cached_route same_text (base64 bytes) (route bytes) o s).0
        × ((cached_route same_text (base64 bytes) (route bytes) o s).1 ≡ route bytes)
  unfolding cached_route
  cached_route_lem bytes (some e) s g v = (hit-IsCache bytes e s g v, v.right bytes e g)
  cached_route_lem bytes none s g v = (miss-IsCache bytes s g v, refl)

  route_bytes_lem :
      (bytes : List ℕ) (s : RouteCache)
      → IsCache s
      → IsCache (route_bytes same_text base64 base64url_sha256 utf8 bytes s).0
        × ((route_bytes same_text base64 base64url_sha256 utf8 bytes s).1 ≡ route bytes)
  unfolding route_bytes
  route_bytes_lem bytes s v = elim (Bool-cases (ltb max_cacheable_partition_bytes (length bytes))) [
    | inl e ↦ rw e (v, refl)
    | inr e ↦ rw e (cached_route_lem bytes _ s refl v)
  ]

  route_partition_lem :
      (o : Option ℕ) (bytes : List ℕ) (s : RouteCache)
      → IsCache s
      → IsCache (route_partition same_text base64 base64url_sha256 utf8 o bytes s).0
        × ((route_partition same_text base64 base64url_sha256 utf8 o bytes s).1
            ≡ some (expected_bytes o bytes))
  unfolding route_partition
  route_partition_lem (some bucket) bytes s v = (v, refl)
  route_partition_lem none bytes s v = let (w, e) = route_bytes_lem bytes s v in (w, ap some e)

  -- With a base64 that maps no two byte strings to one text, a lookup in a valid cache gives the
  -- route key that the partition has without a cache, and leaves the cache valid: its count of
  -- bytes is the sum over its entries, at most 1 MiB, and it has at most 1024 entries.
  pub lookup_correct :
      (p : Partition) (s : RouteCache)
      → IsCache s
      → IsCache (flow_logical_partition_routing_key same_text base64 base64url_sha256 utf8 p s).0
        × ((flow_logical_partition_routing_key same_text base64 base64url_sha256 utf8 p s).1
            ≡ expected p)
  unfolding flow_logical_partition_routing_key
  lookup_correct (Partition.text cs) s v =
      route_partition_lem (flow_auto_bucket (Partition.text cs)) (utf8 cs) s v
  lookup_correct (Partition.buffer bs) s v =
      route_partition_lem (flow_auto_bucket (Partition.buffer bs)) bs s v
  lookup_correct Partition.other s v = (v, refl)
