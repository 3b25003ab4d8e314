-- ===== src/Routing/Topology/Covering.antt =====
-- What a topology that has been built gives for each slot.
use ferricstore_typescript.Common.{
  ℕ, ◌+◌, ◌-◌, ◌≤◌, ◌<◌, ◌≡◌, inl, inr, sym, ap, ◌∙◌, subst, Bool, true, not, Option, none, some,
  List, length, arith,
}
use native.Mathlib.Decide.{ℕ_discrete}
use ferricstore_typescript.Common.Words.{pos}
use ferricstore_typescript.Common.Results.{Result, ok, >>=-eq-ok, throw_if-ok}
use ferricstore_typescript.Common.Maps.{
  get, set, contains, has, add, contains-set_self, contains-set, has-add_self, has-add_cases,
  has-add,
}
use ferricstore_typescript.Routing.Topology.{
  Route, Range, Field, number, TopologyError, no_leader, invalid_range, invalid_shard_metadata,
  inconsistent_route, inconsistent_endpoint, or_throw, range_numbers, route_at, fill_slots, Draft,
}
use ferricstore_typescript.Routing.Topology.Build.{
  same_route, same_or_new, beyond, Text-discrete, endpoint_from_range, route_of_range, add_range,
}
use ferricstore_typescript.Routing.Topology.Filling.{Filled, fill_slots-Filled}

pub or_throw-ok :
    {A : Type 0} (o : Option A) (e : TopologyError) (a : A) → or_throw o e ≡ ok a → o ≡ some a
or_throw-ok none e a h = cc
or_throw-ok (some b) e a h = cc

-- A range's slots are slots of the table, the first no later than the last.
range_numbers-bounds :
    (a b c d : Field) (n : ℕ × ℕ × ℕ × ℕ)
    → range_numbers a b c d ≡ some n
    → (n.0 ≤ n.1) × (n.1 < 1024)
unfolding range_numbers
range_numbers-bounds (number (pos a)) (number (pos b)) (number (pos c)) (number (pos d)) n h =
    ground arith
range_numbers-bounds _ _ _ _ n h = cc

module _ (valid_host : List ℕ → Bool) (to_lower : List ℕ → List ℕ) where
  route_of_range-bounds :
      (item : Range) (first last : ℕ) (r : Route)
      → route_of_range valid_host to_lower item ≡ ok (first, last, r)
      → (first ≤ last) × (last < 1024)
  unfolding route_of_range
  route_of_range-bounds item first last r h =
      let (c, h1) = throw_if-ok item.leader_unknown no_leader _ _ h in
      let (e, f, h2) = >>=-eq-ok (endpoint_from_range valid_host to_lower item.endpoint) _ h1 in
      let (n, g, h3) =
        >>=-eq-ok
          (or_throw (range_numbers item.first_slot item.last_slot item.shard item.lane_id)
            invalid_range)
          _ h2 in
      let (a, b) = range_numbers-bounds _ _ _ _ n (or_throw-ok _ _ n g) in
      let p : n.0 ≡ first = cc in let q : n.1 ≡ last = cc in (omega arith, omega arith)

  -- A range that has been added: its slots have its route.
  pub record Added (item : Range) (d d1 : Draft) : Type 0 where
    pub first : ℕ
    pub last : ℕ
    pub route : Route
    pub asked : route_of_range valid_host to_lower item ≡ ok (first, last, route)
    pub filling : Filled (last + 1 - first) first route d.slots d1.slots
    pub endpoints_eq :
        d1.endpoints ≡ set Text-discrete route.endpoint_key route.endpoint d.endpoints
    pub shards_eq : d1.shards ≡ add ℕ_discrete route.shard d.shards

  pub add_range-Added :
      (declared : Option ℕ) (item : Range) (d d1 : Draft)
      → add_range valid_host to_lower declared item d ≡ ok d1
      → Added item d d1
  unfolding add_range
  add_range-Added declared item d d1 h =
      let (r, e, h1) = >>=-eq-ok (route_of_range valid_host to_lower item) _ h in
      let known = same_route valid_host to_lower (get ℕ_discrete r.2.shard d.routes_by_shard) r.2 in
      let fits =
        same_or_new valid_host to_lower (get Text-discrete r.2.endpoint_key d.endpoints)
          r.2.endpoint in
      let (a, h2) = throw_if-ok (beyond r.2.shard declared) invalid_shard_metadata _ _ h1 in
      let (b, h3) = throw_if-ok (not known) (inconsistent_route r.2.shard) _ _ h2 in
      let (c, h4) = throw_if-ok (not fits) (inconsistent_endpoint r.2.endpoint_key) _ _ h3 in
      let (slots, f, h5) = >>=-eq-ok (fill_slots (r.1 + 1 - r.0) r.0 r.2 d.slots) _ h4 in
      let g : record {
        slots = slots;
        endpoints = set Text-discrete r.2.endpoint_key r.2.endpoint d.endpoints;
        routes_by_shard = set ℕ_discrete r.2.shard r.2 d.routes_by_shard;
        shards = add ℕ_discrete r.2.shard d.shards;
      }
          ≡ d1 =
        cc in
      record {
        first = r.0;
        last = r.1;
        route = r.2;
        asked = e;
        filling =
            subst (Filled (r.1 + 1 - r.0) r.0 r.2 d.slots) (ap (λ (x : Draft). x.slots) g)
              (fill_slots-Filled (r.1 + 1 - r.0) r.0 r.2 d.slots slots f);
        endpoints_eq = sym (ap (λ (x : Draft). x.endpoints) g);
        shards_eq = sym (ap (λ (x : Draft). x.shards) g);
      }

  -- A table of all slots, each of whose routes has an endpoint and a shard that are known.
  pub record Sound (d : Draft) : Type 0 where
    pub length_eq : length d.slots ≡ 1024
    pub known :
        (i : ℕ) (x : Route)
        → route_at d.slots i ≡ some x
        → (contains Text-discrete x.endpoint_key d.endpoints ≡ true)
          × (has ℕ_discrete x.shard d.shards ≡ true)
    pub served :
        (k : ℕ)
        → has ℕ_discrete k d.shards ≡ true
        → (i : ℕ) × (r : Route) × (i < 1024) × (route_at d.slots i ≡ some r) × (r.shard ≡ k)

  pub Added-Sound : (item : Range) (d d1 : Draft) → Added item d d1 → Sound d → Sound d1
  Added-Sound item d d1 a s = record {
    served = λ k h.
        elim (has-add_cases ℕ_discrete k a.route.shard d.shards (rw (a.shards_eq) at h)) [
          | inl before ↦
              (let (i, r, l, e, f) = s.served k before in (i, r, l, a.filling.stays i r e, f))
          | inr same ↦
              (let (c, b) = route_of_range-bounds item a.first a.last a.route a.asked in
                (
                  a.first,
                  a.route,
                  omega arith,
                  a.filling.filled a.first (omega arith) (omega arith) (omega (arith, s.length_eq)),
                  sym same,
                ))
        ];
    length_eq = a.filling.length_eq ∙ s.length_eq;
    known = λ i x k.
        rw (a.endpoints_eq, a.shards_eq)
          (elim (a.filling.only i x k) [
            | inl before ↦
                (let (e, f) = s.known i x before in
                  (
                    contains-set Text-discrete x.endpoint_key a.route.endpoint_key a.route.endpoint
                        d.endpoints e,
                    has-add ℕ_discrete x.shard a.route.shard d.shards f,
                  ))
            | inr same ↦ rw same (
              contains-set_self Text-discrete a.route.endpoint_key a.route.endpoint d.endpoints,
              has-add_self ℕ_discrete a.route.shard d.shards,
            )
          ]);
  }

  -- Each slot of a range has the range's route.
  abbrev pub Served : List (Option Route) → Range → Type 0
  Served slots item =
      (first last : ℕ) (r : Route)
      → route_of_range valid_host to_lower item ≡ ok (first, last, r)
      → (i : ℕ) → first ≤ i
      → i ≤ last
      → route_at slots i ≡ some r

  pub Added-Served :
      (item : Range) (d d1 : Draft) → Added item d d1 → Sound d → Served d1.slots item
  Added-Served item d d1 a s first last r e i l u =
      let (c, b) = route_of_range-bounds item first last r e in
      let same : Path (Result TopologyError (ℕ × ℕ × Route)) (ok (a.first, a.last, a.route))
          (ok (first, last, r)) =
        sym a.asked ∙ e in
      let p : a.first ≡ first = cc in
      let q : a.last ≡ last = cc in
      let t : a.route ≡ r = cc in
      a.filling.filled i (omega arith) (omega arith) (omega (arith, s.length_eq)) ∙ ap some t
