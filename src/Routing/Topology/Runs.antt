-- ===== src/Routing/Topology/Runs.antt =====
-- A topology of two nodes, and the theorems at it.
use ferricstore_typescript.Common.{
  ℕ, ◌+◌, ◌<◌, ◌≡◌, refl, Bool, true, false, none, some, List, [], ◌∷◌, All,
}
use ferricstore_typescript.Common.Words.{pos}
use ferricstore_typescript.Common.Results.{Result, ok, err}
use ferricstore_typescript.Common.Maps.{contains}
use ferricstore_typescript.Routing.Slots.{Key, routing_slot_for_key}
use ferricstore_typescript.Routing.Topology.{
  Route, EndpointSource, Range, Payload, absent, number, Topology, TopologyError, empty, route_at,
  overlapping_slot, no_route, slots_ok, route_epoch_of, shard_count_of, native_port_of, tls_port_of,
  port_in_range, range_numbers, without_brackets, last_is, but_last, port_text, same_port,
  fill_slots, fill_from, put_route, empty_slots, find_missing, check_shards,
}
use ferricstore_typescript.Routing.Topology.Build.{
  Text-discrete, build, route_key, add_ranges, add_range, route_of_range, endpoint_from_range,
  endpoint_key_for, beyond, same_route, same_or_new, same_endpoint, finish_topology, refuse_missing,
}
use native.Mathlib.Decide.{ℕ_discrete}
use ferricstore_typescript.Protocol.Frame.{bytes_eq}
use ferricstore_typescript.Routing.Topology.Covering.{Served}
use ferricstore_typescript.Routing.Topology.Complete.{build-Served, route_key-build}

abbrev node_at : ℕ → EndpointSource
node_at letter = record {
  malformed = false;
  host = some (letter ∷ []);
  native_port = number (pos 6388);
  native_tls_port = absent;
  node = none;
}

abbrev range_of : ℕ → ℕ → ℕ → Range
range_of first last shard = record {
  leader_unknown = false;
  first_slot = number (pos first);
  last_slot = number (pos last);
  shard = number (pos shard);
  lane_id = number (pos (shard + 1));
  endpoint = node_at (97 + shard);
}

abbrev payload_of : List Range → Payload
payload_of ranges = record {
  ranges = some ranges;
  slots = number (pos 1024);
  route_epoch = number (pos 3);
  shard_count = absent;
}

abbrev two_ranges : List Range
two_ranges = range_of 0 511 0 ∷ range_of 512 1023 1 ∷ []

abbrev is_built : Result TopologyError Topology → Bool
is_built (ok t) = true
is_built (err e) = false

abbrev any_host : List ℕ → Bool
any_host host = true

abbrev as_it_is : List ℕ → List ℕ
as_it_is host = host

two_ranges_built : is_built (build any_host as_it_is (payload_of two_ranges)) ≡ true
unfolding build slots_ok route_epoch_of shard_count_of add_ranges add_range route_of_range
    endpoint_from_range native_port_of tls_port_of port_in_range range_numbers endpoint_key_for
    without_brackets last_is but_last port_text beyond same_route same_or_new same_endpoint
    same_port bytes_eq fill_slots fill_from route_at put_route empty_slots finish_topology
    refuse_missing find_missing check_shards ℕ_discrete
two_ranges_built = refl

abbrev topology_of : Result TopologyError Topology → Topology
topology_of (ok t) = t
topology_of (err e) = empty

built_is : (r : Result TopologyError Topology) → is_built r ≡ true → r ≡ ok (topology_of r)
built_is (ok t) h = refl
built_is (err e) h = cc

two_nodes : Topology
two_nodes = topology_of (build any_host as_it_is (payload_of two_ranges))

two_nodes_built : build any_host as_it_is (payload_of two_ranges) ≡ ok two_nodes
unfolding two_nodes
two_nodes_built = built_is (build any_host as_it_is (payload_of two_ranges)) two_ranges_built

-- Ranges that meet in a slot, and ranges that leave one out.
refused_overlap :
    build any_host as_it_is (payload_of (range_of 0 5 0 ∷ range_of 5 9 1 ∷ []))
    ≡ err (overlapping_slot 5)
unfolding build slots_ok route_epoch_of shard_count_of add_ranges add_range route_of_range
    endpoint_from_range native_port_of tls_port_of port_in_range range_numbers endpoint_key_for
    without_brackets last_is but_last port_text beyond same_route same_or_new same_endpoint
    same_port bytes_eq fill_slots fill_from route_at put_route empty_slots finish_topology
    refuse_missing find_missing check_shards ℕ_discrete
refused_overlap = refl

refused_gap : build any_host as_it_is (payload_of (range_of 0 5 0 ∷ [])) ≡ err (no_route 6)
unfolding build slots_ok route_epoch_of shard_count_of add_ranges add_range route_of_range
    endpoint_from_range native_port_of tls_port_of port_in_range range_numbers endpoint_key_for
    without_brackets last_is but_last port_text beyond same_route same_or_new same_endpoint
    same_port bytes_eq fill_slots fill_from route_at put_route empty_slots finish_topology
    refuse_missing find_missing check_shards ℕ_discrete
refused_gap = refl

build-Served_example : All (Served any_host as_it_is two_nodes.slots) two_ranges
build-Served_example =
    build-Served any_host as_it_is (payload_of two_ranges) two_nodes two_ranges two_nodes_built refl

route_key-build_example :
    ((key : Key)
      → (r : Route) × (route_key two_nodes key ≡ ok (r, routing_slot_for_key key))
        × (route_at two_nodes.slots (routing_slot_for_key key) ≡ some r)
        × (contains Text-discrete r.endpoint_key two_nodes.endpoints ≡ true))
    × ((k : ℕ)
        → k < two_nodes.shard_count
        → (i : ℕ) × (r : Route) × (i < 1024)
          × (route_at two_nodes.slots i ≡ some r)
          × (r.shard ≡ k))
route_key-build_example =
    route_key-build any_host as_it_is (payload_of two_ranges) two_nodes two_nodes_built
