-- ===== src/Routing/Topology.antt =====
-- `RoutingTopology` of src/routing-topology.ts, and the endpoints of src/topology-utilities.ts. A
-- payload is given by what `getField` finds in it, read as a number or a text; a text is its code
-- units. Whether a host is one of a URL and how a text reads in lower case are parameters.
pub mod Build
pub mod Filling
pub mod Covering
pub mod Complete
pub mod Runs
use ferricstore_typescript.Common.{
  ℕ, zero, suc, ◌+◌, ◌-◌, ◌*◌, ◌/◌, ◌%◌, Bool, true, false, ◌&&◌, ◌||◌, not, Option, none, some,
  List, [], ◌∷◌, ◌++◌, ltb, leb, ◌==◌, if◌then◌else◌, length,
}
use native.Mathlib.Decide.{ℕ_discrete}
use ferricstore_typescript.Common.Words.{ℤ, pos, negsuc}
use ferricstore_typescript.Common.Results.{Result, ok, err, ◌>>=◌, ◌>>◌, throw_if}
use ferricstore_typescript.Common.Maps.{get, set, has, add}
use ferricstore_typescript.Protocol.Frame.{bytes_eq}
use ferricstore_typescript.Routing.Slots.{Key, routing_slot_for_key}

abbrev pub route_slot_count : ℕ
route_slot_count = 1024

abbrev pub max_u32 : ℕ
max_u32 = 4294967295

pub record Endpoint : Type 0 where
  pub node : List ℕ
  pub host : List ℕ
  pub native_port : ℕ
  pub native_tls_port : Option ℕ

pub record Route : Type 0 where
  pub shard : ℕ
  pub lane_id : ℕ
  pub endpoint_key : List ℕ
  pub endpoint : Endpoint
  pub leader_node : List ℕ

-- A field: null or not there, a safe integer, or any other value.
pub data Field : Type 0 where
  absent : Field
  number : ℤ → Field
  other : Field

-- The source of an endpoint: `malformed` where `endpoint` is neither null nor an object.
pub record EndpointSource : Type 0 where
  pub malformed : Bool
  pub host : Option (List ℕ)
  pub native_port : Field
  pub native_tls_port : Field
  pub node : Option (List ℕ)

pub record Range : Type 0 where
  pub leader_unknown : Bool
  pub first_slot : Field
  pub last_slot : Field
  pub shard : Field
  pub lane_id : Field
  pub endpoint : EndpointSource

pub record Payload : Type 0 where
  pub ranges : Option (List Range)
  pub slots : Field
  pub route_epoch : Field
  pub shard_count : Field

pub data TopologyError : Type 0 where
  invalid_payload invalid_metadata no_leader invalid_endpoint invalid_range : TopologyError
  invalid_shard_metadata invalid_shard_count : TopologyError
  inconsistent_route : ℕ → TopologyError
  inconsistent_endpoint : List ℕ → TopologyError
  overlapping_slot : ℕ → TopologyError
  no_route : ℕ → TopologyError
  no_range : ℕ → TopologyError

pub record Topology : Type 0 where
  pub route_epoch : ℕ
  pub shard_count : ℕ
  pub slots : List (Option Route)
  pub endpoints : List (List ℕ × Endpoint)

unfoldable pub empty_slots : ℕ → List (Option Route)
empty_slots zero = []
empty_slots (suc n) = none ∷ empty_slots n

abbrev pub empty : Topology
empty = record {
  route_epoch = 0;
  shard_count = 0;
  slots = empty_slots route_slot_count;
  endpoints = [];
}

-- A number in decimal, on fuel for its digits.
unfoldable pub port_text : ℕ → ℕ → List ℕ
port_text zero n = []
port_text (suc fuel) n =
    let before = port_text fuel (n / 10) in
    if ltb n 10 then (48 + n) ∷ [] else before ++ ((48 + n % 10) ∷ [])

unfoldable pub last_is : ℕ → List ℕ → Bool
last_is c [] = false
last_is c (x ∷ []) = x == c
last_is c (x ∷ (y ∷ ys)) = last_is c (y ∷ ys)

unfoldable pub but_last : List ℕ → List ℕ
but_last [] = []
but_last (x ∷ []) = []
but_last (x ∷ (y ∷ ys)) = x ∷ but_last (y ∷ ys)

-- `lower.startsWith("[") && lower.endsWith("]") ? lower.slice(1, -1) : lower`
unfoldable pub without_brackets : List ℕ → List ℕ
without_brackets [] = []
without_brackets (c ∷ cs) = if (c == 91) && last_is 93 (c ∷ cs) then but_last cs else c ∷ cs

unfoldable pub port_in_range : ℕ → Bool
port_in_range n = not (n == 0) && leb n 65535

unfoldable pub native_port_of : Field → Option ℕ
native_port_of (number (pos n)) = if port_in_range n then some n else none
native_port_of (number (negsuc n)) = none
native_port_of absent = none
native_port_of other = none

-- The port for TLS may be left out.
unfoldable pub tls_port_of : Field → Result TopologyError (Option ℕ)
tls_port_of absent = ok none
tls_port_of (number (pos n)) = if port_in_range n then ok (some n) else err invalid_endpoint
tls_port_of (number (negsuc n)) = err invalid_endpoint
tls_port_of other = err invalid_endpoint

abbrev pub or_else : {A : Type 0} → Option A → A → A
or_else none d = d
or_else (some a) d = a

abbrev pub or_throw : {A : Type 0} → Option A → TopologyError → Result TopologyError A
or_throw none e = err e
or_throw (some a) e = ok a

unfoldable pub same_port : Option ℕ → Option ℕ → Bool
same_port none none = true
same_port none (some n) = false
same_port (some m) none = false
same_port (some m) (some n) = m == n

-- The tests on `slots`, `route_epoch` and `shard_count`, and the two numbers that are used.
unfoldable pub slots_ok : Field → Bool
slots_ok absent = true
slots_ok (number (pos n)) = n == route_slot_count
slots_ok (number (negsuc n)) = false
slots_ok other = false

unfoldable pub route_epoch_of : Field → Option ℕ
route_epoch_of absent = some 0
route_epoch_of (number (pos n)) = some n
route_epoch_of (number (negsuc n)) = none
route_epoch_of other = none

unfoldable pub shard_count_of : Field → Result TopologyError (Option ℕ)
shard_count_of absent = ok none
shard_count_of (number (pos n)) = if n == 0 then err invalid_metadata else ok (some n)
shard_count_of (number (negsuc n)) = err invalid_metadata
shard_count_of other = err invalid_metadata

-- The numbers of a range: its first and last slot, its shard, and its lane.
unfoldable pub range_numbers : Field → Field → Field → Field → Option (ℕ × ℕ × ℕ × ℕ)
range_numbers (number (pos first)) (number (pos last)) (number (pos shard)) (number (pos lane)) =
    if ltb last first
      || leb route_slot_count last
      || ltb max_u32 shard
      || (lane == 0)
      || ltb max_u32 lane
    then none
    else some (first, last, shard, lane)
range_numbers _ _ _ _ = none

-- `slots[slot]`
unfoldable pub route_at : List (Option Route) → ℕ → Option Route
route_at [] i = none
route_at (r ∷ rs) zero = r
route_at (r ∷ rs) (suc i) = route_at rs i

unfoldable pub put_route : ℕ → Route → List (Option Route) → List (Option Route)
put_route i route [] = []
put_route zero route (r ∷ rs) = some route ∷ rs
put_route (suc i) route (r ∷ rs) = r ∷ put_route i route rs

-- The loop over the slots of a range, from `slot` on.
unfoldable pub fill_from :
    Option Route
    → ℕ
    → Result TopologyError (List (Option Route))
    → Result TopologyError (List (Option Route))
fill_from none slot rest = rest
fill_from (some taken_by) slot rest = err (overlapping_slot slot)

unfoldable pub fill_slots :
    ℕ → ℕ → Route → List (Option Route) → Result TopologyError (List (Option Route))
fill_slots zero slot route slots = ok slots
fill_slots (suc n) slot route slots =
    fill_from (route_at slots slot) slot
      (fill_slots n (slot + 1) route (put_route slot route slots))

-- `slots.findIndex((route) => route == null)`
unfoldable pub find_missing : ℕ → List (Option Route) → Option ℕ
find_missing i [] = none
find_missing i (none ∷ rs) = some i
find_missing i (some r ∷ rs) = find_missing (i + 1) rs

-- The loop over the shards below the count, from `shard` on.
unfoldable pub check_shards : ℕ → ℕ → List ℕ → Result TopologyError Bool
check_shards zero shard shards = ok true
check_shards (suc n) shard shards =
    if has ℕ_discrete shard shards then check_shards n (shard + 1) shards else err (no_range shard)

-- What `build` has put together so far.
pub record Draft : Type 0 where
  pub slots : List (Option Route)
  pub endpoints : List (List ℕ × Endpoint)
  pub routes_by_shard : List (ℕ × Route)
  pub shards : List ℕ
