-- ===== src/Routing/RouteCache.antt =====
-- src/flow-partition-route-cache.ts: the route key of a Flow partition, behind a cache that drops
-- its oldest entries. Strings are lists of UTF-16 code units; base64, UTF-8 and SHA-256 come from
-- node and are parameters.
pub mod Buckets
pub mod Validity
pub mod Lookups
pub mod Runs
use Prim.Native.Nat.{ℕ, zero, suc, ◌+◌, ◌-◌, ◌*◌, ◌/◌, ◌%◌}
use mathlib.Core.Path.{◌≡◌}
use mathlib.Core.Bool.{Bool, true, false, not, ◌&&◌, ◌||◌}
use mathlib.Core.Option.{Option, none, some}
use mathlib.Core.List.{List, [], ◌∷◌, ◌++◌}
use ferricstore_typescript.Common.{length, take, drop, ltb, leb, ◌==◌, if◌then◌else◌}
use ferricstore_typescript.Common.Maps.{get, set, delete}

-- "__flow_auto__:"
abbrev pub auto_prefix : List ℕ
auto_prefix = 95 ∷ 95 ∷ 102 ∷ 108 ∷ 111 ∷ 119 ∷ 95 ∷ 97 ∷ 117 ∷ 116 ∷ 111 ∷ 95 ∷ 95 ∷ 58 ∷ []

abbrev pub max_cacheable_partition_bytes : ℕ
max_cacheable_partition_bytes = 4 * 1024

abbrev pub max_cache_bytes : ℕ
max_cache_bytes = 1024 * 1024

abbrev pub max_cache_entries : ℕ
max_cache_entries = 1024

abbrev pub cache_entry_overhead_bytes : ℕ
cache_entry_overhead_bytes = 96

pub record CacheEntry : Type 0 where
  pub bytes : ℕ
  pub route_key : List ℕ

pub record RouteCache : Type 0 where
  pub entries : List (List ℕ × CacheEntry)
  pub cache_bytes : ℕ
  pub cache_hits : ℕ
  pub cache_misses : ℕ

-- `resetFlowPartitionRouteCache`
abbrev pub reset : RouteCache
reset = record { entries = []; cache_bytes = 0; cache_hits = 0; cache_misses = 0 }

pub data Partition : Type 0 where
  text buffer : List ℕ → Partition
  other : Partition

unfoldable pub is_digit : ℕ → Bool
is_digit c = leb 48 c && leb c 57

-- `(0|[1-9]\d{0,2})`, up to the end.
unfoldable pub matches_number : List ℕ → Bool
matches_number [] = false
matches_number (a ∷ []) = is_digit a
matches_number (a ∷ b ∷ []) = (is_digit a && not (a == 48)) && is_digit b
matches_number (a ∷ b ∷ c ∷ []) = (is_digit a && not (a == 48)) && (is_digit b && is_digit c)
matches_number (a ∷ b ∷ c ∷ d ∷ ds) = false

unfoldable pub number_of : ℕ → List ℕ → ℕ
number_of n [] = n
number_of n (c ∷ cs) = number_of (n * 10 + (c - 48)) cs

unfoldable pub below_256 : ℕ → Option ℕ
below_256 n = if ltb n 256 then some n else none

-- What the expression `^__flow_auto__:(0|[1-9]\d{0,2})$` finds behind its first characters.
unfoldable pub match_text : List ℕ → List ℕ → Option (List ℕ)
match_text [] cs = if matches_number cs then some cs else none
match_text (p ∷ ps) [] = none
match_text (p ∷ ps) (c ∷ cs) = if c == p then match_text ps cs else none

unfoldable pub number_below_256 : Option (List ℕ) → Option ℕ
number_below_256 none = none
number_below_256 (some cs) = below_256 (number_of 0 cs)

unfoldable pub has_prefix : List ℕ → List ℕ → Bool
has_prefix [] cs = true
has_prefix (p ∷ ps) [] = false
has_prefix (p ∷ ps) (c ∷ cs) = if c == p then has_prefix ps cs else false

-- The loop over the digits.
unfoldable pub read_bucket : ℕ → List ℕ → Option ℕ
read_bucket bucket [] = below_256 bucket
read_bucket bucket (c ∷ cs) =
    let rest = read_bucket (bucket * 10 + (c - 48)) cs in
    if ltb c 48 || ltb 57 c then none else rest

unfoldable pub starts_with_zero : List ℕ → Bool
starts_with_zero [] = false
starts_with_zero (c ∷ cs) = c == 48

unfoldable pub bucket_behind : ℕ → List ℕ → Option ℕ
bucket_behind digit_count cs =
    if ltb 1 digit_count && starts_with_zero cs then none else read_bucket 0 cs

pub flow_auto_bucket : Partition → Option ℕ
flow_auto_bucket (text cs) = number_below_256 (match_text auto_prefix cs)
flow_auto_bucket (buffer cs) =
    let digit_count = length cs - length auto_prefix in
    if ltb digit_count 1 || ltb 3 digit_count
    then none
    else if not (has_prefix auto_prefix cs)
    then none
    else bucket_behind digit_count (drop (length auto_prefix) cs)
flow_auto_bucket other = none

-- A number below 1000 in decimal.
unfoldable pub decimal : ℕ → List ℕ
decimal n =
    if ltb n 10
    then (48 + n) ∷ []
    else if ltb n 100
    then (48 + n / 10) ∷ (48 + n % 10) ∷ []
    else (48 + n / 100) ∷ (48 + n / 10 % 10) ∷ (48 + n % 10) ∷ []

-- `{fa:${bucket}}`
unfoldable pub auto_route : ℕ → List ℕ
auto_route bucket = (123 ∷ 102 ∷ 97 ∷ 58 ∷ []) ++ (decimal bucket ++ (125 ∷ []))

unfoldable pub estimated_entry_bytes : List ℕ → List ℕ → ℕ
estimated_entry_bytes cache_key route_key =
    cache_entry_overhead_bytes + 2 * (length cache_key + length route_key)

module _ (same_text : Discrete (List ℕ)) where
  unfoldable pub evict_first : List (List ℕ × CacheEntry) → RouteCache → RouteCache
  evict_first [] s = s
  evict_first ((k, e) ∷ rest) s = record s {
    entries = delete same_text k s.entries;
    cache_bytes = s.cache_bytes - e.bytes;
  }

  unfoldable pub evict_oldest : RouteCache → RouteCache
  evict_oldest s = evict_first s.entries s

  unfoldable pub must_evict : ℕ → RouteCache → Bool
  must_evict entry_bytes s =
      leb max_cache_entries (length s.entries)
      || (ltb 0 (length s.entries) && ltb max_cache_bytes (s.cache_bytes + entry_bytes))

  -- The first argument bounds the rounds.
  unfoldable pub evict_loop : ℕ → ℕ → RouteCache → RouteCache
  evict_loop zero entry_bytes s = s
  evict_loop (suc n) entry_bytes s =
      let rest = evict_loop n entry_bytes (evict_oldest s) in
      if must_evict entry_bytes s then rest else s

  unfoldable pub store : List ℕ → ℕ → List ℕ → RouteCache → RouteCache
  store cache_key entry_bytes route_key s =
      if leb entry_bytes max_cache_bytes
      then record s {
        entries =
            set same_text cache_key (record { bytes = entry_bytes; route_key = route_key })
              s.entries;
        cache_bytes = s.cache_bytes + entry_bytes;
      }
      else s

  unfoldable pub hit : List ℕ → CacheEntry → RouteCache → RouteCache
  hit cache_key cached s = record s {
    cache_hits = s.cache_hits + 1;
    entries = set same_text cache_key cached (delete same_text cache_key s.entries);
  }

  unfoldable pub miss : List ℕ → List ℕ → RouteCache → RouteCache
  miss cache_key route_key s =
      let s1 = record s { cache_misses = s.cache_misses + 1 } in
      let entry_bytes = estimated_entry_bytes cache_key route_key in
      store cache_key entry_bytes route_key (evict_loop (length s1.entries) entry_bytes s1)

  unfoldable pub cached_route :
      List ℕ → List ℕ → Option CacheEntry → RouteCache → RouteCache × List ℕ
  cached_route cache_key route_key (some cached) s = (hit cache_key cached s, cached.route_key)
  cached_route cache_key route_key none s = (miss cache_key route_key s, route_key)

  module _ (base64 base64url_sha256 utf8 : List ℕ → List ℕ) where
    -- `{f:${digest}}`
    unfoldable pub hash_route : List ℕ → List ℕ
    hash_route bytes = (123 ∷ 102 ∷ 58 ∷ []) ++ (base64url_sha256 bytes ++ (125 ∷ []))

    unfoldable pub route_bytes : List ℕ → RouteCache → RouteCache × List ℕ
    route_bytes bytes s =
        if ltb max_cacheable_partition_bytes (length bytes)
        then (s, hash_route bytes)
        else cached_route (base64 bytes) (hash_route bytes) (get same_text (base64 bytes) s.entries)
            s

    unfoldable pub route_partition : Option ℕ → List ℕ → RouteCache → RouteCache × Option (List ℕ)
    route_partition (some bucket) bytes s = (s, some (auto_route bucket))
    route_partition none bytes s = let r = route_bytes bytes s in (r.0, some (r.1))

    pub flow_logical_partition_routing_key : Partition → RouteCache → RouteCache × Option (List ℕ)
    flow_logical_partition_routing_key other s = (s, none)
    flow_logical_partition_routing_key (text cs) s =
        route_partition (flow_auto_bucket (text cs)) (utf8 cs) s
    flow_logical_partition_routing_key (buffer bs) s =
        route_partition (flow_auto_bucket (buffer bs)) bs s
