-- ===== src/Routing/Topology/Build.antt =====
-- `endpointFromRange`, `sameEndpoint`, `endpointKeyFor`, `build` and `routeKey`.
use ferricstore_typescript.Common.{
  ℕ, ◌+◌, ◌-◌, Bool, true, false, ◌&&◌, ◌||◌, not, Option, none, some, List, [], ◌∷◌, ◌++◌, leb,
  ◌==◌, length,
}
use native.Mathlib.Decide.{ℕ_discrete}
use ferricstore_typescript.Common.Results.{Result, ok, err, ◌>>=◌, ◌>>◌, throw_if}
use ferricstore_typescript.Common.Maps.{get, set, add}
use ferricstore_typescript.Protocol.Frame.{bytes_eq}
use ferricstore_typescript.Routing.Slots.{Key, routing_slot_for_key}
use ferricstore_typescript.Routing.Topology.{
  route_slot_count, Endpoint, Route, EndpointSource, Range, Payload, TopologyError, invalid_payload,
  invalid_metadata, no_leader, invalid_endpoint, invalid_range, invalid_shard_metadata,
  invalid_shard_count, inconsistent_route, inconsistent_endpoint, no_route, Topology, empty_slots,
  port_text, without_brackets, native_port_of, tls_port_of, or_else, or_throw, same_port, slots_ok,
  route_epoch_of, shard_count_of, range_numbers, route_at, fill_slots, find_missing, check_shards,
  Draft,
}

abbrev pub Text-discrete : Discrete (List ℕ)
Text-discrete = hlevel ℕ_discrete

abbrev pub new_draft : Draft
new_draft = record {
  slots = empty_slots route_slot_count;
  endpoints = [];
  routes_by_shard = [];
  shards = [];
}

unfoldable pub beyond : ℕ → Option ℕ → Bool
beyond shard none = false
beyond shard (some count) = leb count shard

unfoldable pub refuse_missing : Option ℕ → Result TopologyError (Unit {0})
refuse_missing none = ok tt
refuse_missing (some slot) = err (no_route slot)

-- The tests behind the loop.
unfoldable pub finish_topology : ℕ → Option ℕ → Draft → Result TopologyError Topology
finish_topology route_epoch declared d = do
  missing ← refuse_missing (find_missing 0 d.slots)
  throw_if
      ((or_else declared (length d.shards) == 0)
        || not (length d.shards == or_else declared (length d.shards)))
      invalid_shard_count
  checked ← check_shards (or_else declared (length d.shards)) 0 d.shards
  ok (record {
    route_epoch = route_epoch;
    shard_count = or_else declared (length d.shards);
    slots = d.slots;
    endpoints = d.endpoints;
  })

module _ (valid_host : List ℕ → Bool) (to_lower : List ℕ → List ℕ) where
  unfoldable pub endpoint_from_range : EndpointSource → Result TopologyError Endpoint
  endpoint_from_range source = do
    throw_if source.malformed invalid_endpoint
    host ← or_throw source.host invalid_endpoint
    throw_if (not (valid_host host)) invalid_endpoint
    native_port ← or_throw (native_port_of source.native_port) invalid_endpoint
    native_tls_port ← tls_port_of source.native_tls_port
    ok (record {
      node = or_else source.node host;
      host = host;
      native_port = native_port;
      native_tls_port = native_tls_port;
    })

  abbrev pub normalized_endpoint_host : List ℕ → List ℕ
  normalized_endpoint_host host = without_brackets (to_lower host)

  unfoldable pub same_endpoint : Endpoint → Endpoint → Bool
  same_endpoint left right =
      bytes_eq (normalized_endpoint_host left.host) (normalized_endpoint_host right.host)
      && (left.native_port == right.native_port)
      && same_port left.native_tls_port right.native_tls_port
      && bytes_eq left.node right.node

  -- A port has five digits at most.
  unfoldable pub endpoint_key_for : Endpoint → List ℕ
  endpoint_key_for endpoint =
      normalized_endpoint_host endpoint.host ++ (58 ∷ port_text 5 endpoint.native_port)

  unfoldable pub same_route : Option Route → Route → Bool
  same_route none route = true
  same_route (some existing) route =
      bytes_eq existing.endpoint_key route.endpoint_key
      && (existing.lane_id == route.lane_id)
      && same_endpoint existing.endpoint route.endpoint

  unfoldable pub same_or_new : Option Endpoint → Endpoint → Bool
  same_or_new none endpoint = true
  same_or_new (some existing) endpoint = same_endpoint existing endpoint

  -- The route that a range asks for, with its slots.
  unfoldable pub route_of_range : Range → Result TopologyError (ℕ × ℕ × Route)
  route_of_range item = do
    throw_if item.leader_unknown no_leader
    endpoint ← endpoint_from_range item.endpoint
    n ←
        or_throw (range_numbers item.first_slot item.last_slot item.shard item.lane_id)
          invalid_range
    ok (
      n.0,
      n.1,
      record {
        shard = n.2;
        lane_id = n.3;
        endpoint_key = endpoint_key_for endpoint;
        endpoint = endpoint;
        leader_node = endpoint.node;
      },
    )

  -- One turn of the loop over the ranges.
  unfoldable pub add_range : Option ℕ → Range → Draft → Result TopologyError Draft
  add_range declared item d = do
    r ← route_of_range item
    throw_if (beyond r.2.shard declared) invalid_shard_metadata
    throw_if (not (same_route (get ℕ_discrete r.2.shard d.routes_by_shard) r.2))
        (inconsistent_route r.2.shard)
    throw_if (not (same_or_new (get Text-discrete r.2.endpoint_key d.endpoints) r.2.endpoint))
        (inconsistent_endpoint r.2.endpoint_key)
    slots ← fill_slots (r.1 + 1 - r.0) r.0 r.2 d.slots
    ok (record {
      slots = slots;
      endpoints = set Text-discrete r.2.endpoint_key r.2.endpoint d.endpoints;
      routes_by_shard = set ℕ_discrete r.2.shard r.2 d.routes_by_shard;
      shards = add ℕ_discrete r.2.shard d.shards;
    })

  unfoldable pub add_ranges : Option ℕ → List Range → Draft → Result TopologyError Draft
  add_ranges declared [] d = ok d
  add_ranges declared (item ∷ items) d = do
    d1 ← add_range declared item d
    add_ranges declared items d1

  unfoldable pub build : Payload → Result TopologyError Topology
  build payload = do
    ranges ← or_throw payload.ranges invalid_payload
    throw_if (not (slots_ok payload.slots)) invalid_metadata
    route_epoch ← or_throw (route_epoch_of payload.route_epoch) invalid_metadata
    declared ← shard_count_of payload.shard_count
    d ← add_ranges declared ranges new_draft
    finish_topology route_epoch declared d

-- The route of a key, with its slot.
unfoldable pub route_key : Topology → Key → Result TopologyError (Route × ℕ)
route_key t key = do
  route ←
      or_throw (route_at t.slots (routing_slot_for_key key)) (no_route (routing_slot_for_key key))
  ok (route, routing_slot_for_key key)
