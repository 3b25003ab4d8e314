-- ===== src/Routing/Topology/Complete.antt =====
-- A topology that has been built routes every key.
use ferricstore_typescript.Common.{
  ℕ, zero, suc, ◌+◌, ◌/◌, ◌≤◌, ◌<◌, ◌≡◌, inl, inr, refl, sym, ap, ◌∙◌, subst, Bool, true, ◌||◌, not,
  Bool-cases, Option, none, some, List, [], ◌∷◌, length, All, ◌==◌, bit_and, min, arith,
}
use Prim.Native.Nat.{digits, bit_and-bitwise}
use mathlib.Core.Option.{some-injective}
use native.Mathlib.Decide.{ℕ_discrete}
use ferricstore_typescript.Common.Results.{ok, >>=-eq-ok, throw_if-ok}
use ferricstore_typescript.Common.Maps.{contains, has}
use ferricstore_typescript.Routing.Slots.{Key, text, buffer, routing_slot_for_key, route_slot_mask}
use ferricstore_typescript.Routing.Topology.{
  Route, Range, Payload, invalid_metadata, invalid_payload, invalid_shard_count, Topology, or_throw,
  or_else, route_at, find_missing, check_shards, Draft, slots_ok, route_epoch_of, shard_count_of,
}
use ferricstore_typescript.Routing.Topology.Build.{
  Text-discrete, new_draft, add_range, add_ranges, refuse_missing, finish_topology, build,
  route_key,
}
use ferricstore_typescript.Routing.Topology.Filling.{
  find_missing-all, length-empty_slots, empty_slots_at,
}
use ferricstore_typescript.Routing.Topology.Covering.{
  or_throw-ok, Sound, Served, add_range-Added, Added-Sound, Added-Served,
}

-- The lower ten bits are a slot.
digits_le : (n a b : ℕ) → digits (λ d. zero) min n a b ≤ b
digits_le zero a b = omega arith
digits_le (suc n) zero b = omega arith
digits_le (suc n) (suc a) b = omega (arith, digits_le n (suc a / 2) (b / 2))

bit_and_le : (a b : ℕ) → bit_and a b ≤ b
bit_and_le a b = subst (λ x. x ≤ b) (sym (bit_and-bitwise a b)) (digits_le a a b)

pub routing_slot_for_key_lt : (key : Key) → routing_slot_for_key key < 1024
unfolding routing_slot_for_key
routing_slot_for_key_lt (text key) = omega (arith, bit_and_le _ route_slot_mask)
routing_slot_for_key_lt (buffer key) = omega (arith, bit_and_le _ route_slot_mask)

refuse_missing-ok : (o : Option ℕ) (u : Unit {0}) → refuse_missing o ≡ ok u → o ≡ none
unfolding refuse_missing
refuse_missing-ok none u h = refl
refuse_missing-ok (some slot) u h = cc

check_shards-all :
    (n from : ℕ) (shards : List ℕ) (b : Bool) (k : ℕ)
    → check_shards n from shards ≡ ok b
    → from ≤ k
    → k < from + n
    → has ℕ_discrete k shards ≡ true
unfolding check_shards
check_shards-all zero from shards b k h l u = absurd (omega arith)
check_shards-all (suc n) from shards b k h l u = elim (Bool-cases (has ℕ_discrete from shards)) [
  | inl e ↦
      (let g = rw e at h in
        elim (ℕ_discrete from k) [
          | yes same ↦ ap (λ j. has ℕ_discrete j shards) (sym same) ∙ e
          | no other ↦ check_shards-all n (from + 1) shards b k g (omega arith) (omega arith)
        ])
  | inr e ↦ (let g = rw e at h in cc)
]

-- What has passed the tests behind the loop.
record Finished (d : Draft) (t : Topology) : Type 0 where
  pub slots_eq : t.slots ≡ d.slots
  pub endpoints_eq : t.endpoints ≡ d.endpoints
  pub complete : find_missing 0 d.slots ≡ none
  pub shards : (k : ℕ) → k < t.shard_count → has ℕ_discrete k d.shards ≡ true

finish_topology-Finished :
    (epoch : ℕ) (declared : Option ℕ) (d : Draft) (t : Topology)
    → finish_topology epoch declared d ≡ ok t
    → Finished d t
unfolding finish_topology
finish_topology-Finished epoch declared d t h =
    let count = or_else declared (length d.shards) in
    let (u, e, h1) = >>=-eq-ok (refuse_missing (find_missing 0 d.slots)) _ h in
    let (a, h2) =
      throw_if-ok ((count == 0) || not (length d.shards == count)) invalid_shard_count _ _ h1 in
    let (b, f, h3) = >>=-eq-ok (check_shards count 0 d.shards) _ h2 in
    let g : record {
      route_epoch = epoch;
      shard_count = count;
      slots = d.slots;
      endpoints = d.endpoints;
    }
        ≡ t =
      cc in
    record {
      slots_eq = sym (ap (λ (x : Topology). x.slots) g);
      endpoints_eq = sym (ap (λ (x : Topology). x.endpoints) g);
      complete = refuse_missing-ok (find_missing 0 d.slots) u e;
      shards = λ k l.
          check_shards-all count 0 d.shards b k f (omega arith)
            (omega (arith, ap (λ (x : Topology). x.shard_count) g));
    }

module _ (valid_host : List ℕ → Bool) (to_lower : List ℕ → List ℕ) where
  -- What the loop over the ranges has done.
  record Gathered (items : List Range) (d d1 : Draft) : Type 0 where
    pub sound : Sound valid_host to_lower d1
    pub all_served : All (Served valid_host to_lower d1.slots) items
    pub stays : (i : ℕ) (x : Route) → route_at d.slots i ≡ some x → route_at d1.slots i ≡ some x

  add_ranges-Gathered :
      (declared : Option ℕ) (items : List Range) (d d1 : Draft)
      → add_ranges valid_host to_lower declared items d ≡ ok d1
      → Sound valid_host to_lower d
      → Gathered items d d1
  unfolding add_ranges
  add_ranges-Gathered declared [] d d1 h s =
      let e : d ≡ d1 = cc in
      record {
        sound = subst (Sound valid_host to_lower) e s;
        all_served = tt;
        stays = λ i x k. subst (λ (y : Draft). route_at y.slots i ≡ some x) e k;
      }
  add_ranges-Gathered declared (item ∷ items) d d1 h s =
      let (d2, e, h1) = >>=-eq-ok (add_range valid_host to_lower declared item d) _ h in
      let a = add_range-Added valid_host to_lower declared item d d2 e in
      let g =
        add_ranges-Gathered declared items d2 d1 h1
          (Added-Sound valid_host to_lower item d d2 a s) in
      record {
        sound = g.sound;
        all_served = (
          λ first last r k i l u.
              g.stays i r (Added-Served valid_host to_lower item d d2 a s first last r k i l u),
          g.all_served,
        );
        stays = λ i x k. g.stays i x (a.filling.stays i x k);
      }

  build-parts :
      (p : Payload) (t : Topology) (ranges : List Range)
      → build valid_host to_lower p ≡ ok t
      → p.ranges ≡ some ranges
      → (d : Draft) × Gathered ranges new_draft d × Finished d t
  unfolding build
  build-parts p t ranges h some_ranges =
      let (items, e, h1) = >>=-eq-ok (or_throw p.ranges invalid_payload) _ h in
      let (a, h2) = throw_if-ok (not (slots_ok p.slots)) invalid_metadata _ _ h1 in
      let (epoch, f, h3) =
        >>=-eq-ok (or_throw (route_epoch_of p.route_epoch) invalid_metadata) _ h2 in
      let (declared, g, h4) = >>=-eq-ok (shard_count_of p.shard_count) _ h3 in
      let (d, k, h5) = >>=-eq-ok (add_ranges valid_host to_lower declared items new_draft) _ h4 in
      let same : items ≡ ranges =
        some-injective items ranges
          (sym (or_throw-ok p.ranges invalid_payload items e) ∙ some_ranges) in
      let start : Sound valid_host to_lower new_draft = record {
        length_eq = length-empty_slots 1024;
        known = λ i x q. (let z : none ≡ some x = sym (empty_slots_at 1024 i) ∙ q in cc);
        served = λ i q. cc;
      } in
      (
        d,
        subst (λ is. Gathered is new_draft d) same
            (add_ranges-Gathered declared items new_draft d k start),
        finish_topology-Finished epoch declared d t h5,
      )

  built_ranges :
      (p : Payload) (t : Topology)
      → build valid_host to_lower p ≡ ok t
      → (ranges : List Range) × (p.ranges ≡ some ranges)
  unfolding build
  built_ranges p t h =
      let (items, e, h1) = >>=-eq-ok (or_throw p.ranges invalid_payload) _ h in
      (items, or_throw-ok p.ranges invalid_payload items e)

  -- In a topology that has been built, each slot of each range has that range's route.
  pub build-Served :
      (p : Payload) (t : Topology) (ranges : List Range)
      → build valid_host to_lower p ≡ ok t
      → p.ranges ≡ some ranges
      → All (Served valid_host to_lower t.slots) ranges
  build-Served p t ranges h e =
      let (d, g, f) = build-parts p t ranges h e in
      subst (λ slots. All (Served valid_host to_lower slots) ranges) (sym f.slots_eq) g.all_served

  -- A topology that has been built routes every key: the slot table has a route at the key's slot,
  -- and the result is that route with the slot, and the topology knows the route's endpoint. Every
  -- shard below its shard count has a slot.
  pub route_key-build :
      (p : Payload) (t : Topology)
      → build valid_host to_lower p ≡ ok t
      → ((key : Key)
          → (r : Route) × (route_key t key ≡ ok (r, routing_slot_for_key key))
            × (route_at t.slots (routing_slot_for_key key) ≡ some r)
            × (contains Text-discrete r.endpoint_key t.endpoints ≡ true))
        × ((k : ℕ)
            → k < t.shard_count
            → (i : ℕ) × (r : Route) × (i < 1024) × (route_at t.slots i ≡ some r) × (r.shard ≡ k))
  unfolding route_key
  route_key-build p t h =
      let (ranges, e) = built_ranges p t h in
      let (d, g, f) = build-parts p t ranges h e in
      (
        λ key.
            (let (r, at_slot) =
                find_missing-all 0 d.slots (routing_slot_for_key key) f.complete
                  (omega (arith, routing_slot_for_key_lt key, g.sound.length_eq)) in
              let routed : route_at t.slots (routing_slot_for_key key) ≡ some r =
                ap (λ slots. route_at slots (routing_slot_for_key key)) f.slots_eq ∙ at_slot in
              (
                r,
                rw routed refl,
                routed,
                rw (f.endpoints_eq) (g.sound.known (routing_slot_for_key key) r at_slot).0,
              )),
        λ k l.
            (let (i, r, b, at_i, same) = g.sound.served k (f.shards k l) in
              (i, r, b, ap (λ slots. route_at slots i) f.slots_eq ∙ at_i, same)),
      )
