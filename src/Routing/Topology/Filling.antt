-- ===== src/Routing/Topology/Filling.antt =====
-- The table of slots: what a range puts into it.
use ferricstore_typescript.Common.{
  ℕ, zero, suc, ◌+◌, ◌≤◌, ◌<◌, ◌≡◌, ◌≢◌, ◌⊎◌, inl, inr, refl, sym, ap, ◌∙◌, Option, none, some,
  List, [], ◌∷◌, length, arith,
}
use mathlib.Core.Option.{some-injective}
use native.Mathlib.Decide.{ℕ_discrete}
use ferricstore_typescript.Common.Results.{Result, ok}
use ferricstore_typescript.Routing.Topology.{
  Route, TopologyError, empty_slots, route_at, put_route, fill_from, fill_slots, find_missing,
}

route_at-put_route :
    (i : ℕ) (r : Route) (rs : List (Option Route))
    → i < length rs
    → route_at (put_route i r rs) i ≡ some r
unfolding route_at put_route
route_at-put_route i r [] h = absurd (omega arith)
route_at-put_route zero r (x ∷ rs) h = refl
route_at-put_route (suc i) r (x ∷ rs) h = route_at-put_route i r rs (omega arith)

route_at-put_route_ne :
    (i j : ℕ) (r : Route) (rs : List (Option Route))
    → i ≢ j
    → route_at (put_route i r rs) j ≡ route_at rs j
unfolding route_at put_route
route_at-put_route_ne i j r [] h = refl
route_at-put_route_ne zero zero r (x ∷ rs) h = absurd (h refl)
route_at-put_route_ne zero (suc j) r (x ∷ rs) h = refl
route_at-put_route_ne (suc i) zero r (x ∷ rs) h = refl
route_at-put_route_ne (suc i) (suc j) r (x ∷ rs) h =
    route_at-put_route_ne i j r rs (λ e. h (ap suc e))

put_route_own :
    (i : ℕ) (r : Route) (rs : List (Option Route)) (x : Route)
    → route_at (put_route i r rs) i ≡ some x
    → x ≡ r
unfolding route_at put_route
put_route_own i r [] x h = cc
put_route_own zero r (y ∷ rs) x h = sym (some-injective r x h)
put_route_own (suc i) r (y ∷ rs) x h = put_route_own i r rs x h

length-put_route :
    (i : ℕ) (r : Route) (rs : List (Option Route)) → length (put_route i r rs) ≡ length rs
unfolding put_route
length-put_route i r [] = refl
length-put_route zero r (x ∷ rs) = refl
length-put_route (suc i) r (x ∷ rs) = ap suc (length-put_route i r rs)

fill_from-ok :
    (o : Option Route) (slot : ℕ) (rest : Result TopologyError (List (Option Route)))
    (rs : List (Option Route))
    → fill_from o slot rest ≡ ok rs
    → (o ≡ none) × (rest ≡ ok rs)
unfolding fill_from
fill_from-ok none slot rest rs h = (refl, h)
fill_from-ok (some x) slot rest rs h = cc

-- What filling has done: earlier routes stay, the range's slots have its route, and there is
-- nothing else.
pub record Filled (n slot : ℕ) (r : Route) (before after : List (Option Route)) : Type 0 where
  pub length_eq : length after ≡ length before
  pub stays : (i : ℕ) (x : Route) → route_at before i ≡ some x → route_at after i ≡ some x
  pub filled : (i : ℕ) → slot ≤ i → i < slot + n → i < length before → route_at after i ≡ some r
  pub only :
      (i : ℕ) (x : Route) → route_at after i ≡ some x → (route_at before i ≡ some x) ⊎ (x ≡ r)

pub fill_slots-Filled :
    (n slot : ℕ) (r : Route) (before after : List (Option Route))
    → fill_slots n slot r before ≡ ok after
    → Filled n slot r before after
unfolding fill_slots
fill_slots-Filled zero slot r before after h =
    let e : before ≡ after = cc in
    record {
      length_eq = ap length (sym e);
      stays = λ i x k. ap (λ rs. route_at rs i) (sym e) ∙ k;
      filled = λ i a b c. absurd (omega arith);
      only = λ i x k. inl (ap (λ rs. route_at rs i) e ∙ k);
    }
fill_slots-Filled (suc n) slot r before after h =
    let (free, rest) = fill_from-ok (route_at before slot) slot _ after h in
    let f = fill_slots-Filled n (slot + 1) r (put_route slot r before) after rest in
    record {
      length_eq = f.length_eq ∙ length-put_route slot r before;
      stays = λ i x k. f.stays i x (elim (ℕ_discrete slot i) [
        | yes e ↦ (let z : none ≡ some x = sym free ∙ ap (route_at before) e ∙ k in cc)
        | no e ↦ route_at-put_route_ne slot i r before e ∙ k
      ]);
      filled = λ i a b c. elim (ℕ_discrete slot i) [
        | yes e ↦ f.stays i r (
            ap (λ j. route_at (put_route slot r before) j) (sym e)
            ∙ route_at-put_route slot r before (omega (arith, e)))
        | no e ↦
            f.filled i (omega arith) (omega arith) (omega (arith, length-put_route slot r before))
      ];
      only = λ i x k. elim (f.only i x k) [
        | inl b ↦ elim (ℕ_discrete slot i) [
          | yes e ↦
              inr (put_route_own slot r before x (ap (route_at (put_route slot r before)) e ∙ b))
          | no e ↦ inl (sym (route_at-put_route_ne slot i r before e) ∙ b)
        ]
        | inr b ↦ inr b
      ];
    }

-- Where no slot is missing, every slot has a route.
pub find_missing-all :
    (from : ℕ) (rs : List (Option Route)) (i : ℕ)
    → find_missing from rs ≡ none
    → i < length rs
    → (r : Route) × (route_at rs i ≡ some r)
unfolding find_missing route_at
find_missing-all from [] i h k = absurd (omega arith)
find_missing-all from (none ∷ rs) i h k = cc
find_missing-all from (some r ∷ rs) zero h k = (r, refl)
find_missing-all from (some r ∷ rs) (suc i) h k = find_missing-all (from + 1) rs i h (omega arith)

pub length-empty_slots : (n : ℕ) → length (empty_slots n) ≡ n
unfolding empty_slots
length-empty_slots zero = refl
length-empty_slots (suc n) = ap suc (length-empty_slots n)

pub empty_slots_at : (n i : ℕ) → route_at (empty_slots n) i ≡ none
unfolding empty_slots route_at
empty_slots_at zero i = refl
empty_slots_at (suc n) zero = refl
empty_slots_at (suc n) (suc i) = empty_slots_at n i
