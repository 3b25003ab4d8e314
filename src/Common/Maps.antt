-- ===== src/Common/Maps.antt =====
-- JavaScript's `Map` as an association list in insertion order: `set` on a present key keeps its
-- place, on a new key appends; `delete` removes the key's entry. A `Set` is a list without repeats.
use Prim.Native.Nat.{ℕ, ◌+◌, ◌≤◌}
use mathlib.Core.Path.{◌≡◌, refl, sym}
use mathlib.Core.Logic.{◌≢◌, ite, ◌⊎◌, inl, inr}
use mathlib.Core.Bool.{Bool, true, false}
use mathlib.Core.Option.{Option, none, some}
use mathlib.Core.Option
use mathlib.Core.List.{List, [], ◌∷◌, ◌++◌}
use native.Mathlib.Omega.{arith}
use ferricstore_typescript.Common.Lists.{length}

-- `map.get(k) ?? 0`
abbrev pub or_zero : Option ℕ → ℕ
or_zero none = 0
or_zero (some n) = n

module _ {K : Type 0} where
  abbrev pub sum_values : List (K × ℕ) → ℕ
  sum_values [] = 0
  sum_values ((k, n) ∷ m) = n + sum_values m

  abbrev pub map_values : {V W : Type 0} → (V → W) → List (K × V) → List (K × W)
  map_values f [] = []
  map_values f ((k, v) ∷ m) = (k, f v) ∷ map_values f m

module _ {K : Type 0} (eq : Discrete K) {V : Type 0} where
  abbrev pub get : K → List (K × V) → Option V
  get k [] = none
  get k ((j, v) ∷ m) = ite (eq j k) (some v) (get k m)

  -- `map.has(k)`
  abbrev pub contains : K → List (K × V) → Bool
  contains k [] = false
  contains k ((j, v) ∷ m) = ite (eq j k) true (contains k m)

  abbrev pub set : K → V → List (K × V) → List (K × V)
  set k v [] = (k, v) ∷ []
  set k v ((j, w) ∷ m) = ite (eq j k) ((j, v) ∷ m) ((j, w) ∷ set k v m)

  abbrev pub delete : K → List (K × V) → List (K × V)
  delete k [] = []
  delete k ((j, w) ∷ m) = ite (eq j k) m ((j, w) ∷ delete k m)

  -- No key twice.
  abbrev pub Distinct : List (K × V) → Type 0
  Distinct [] = Unit {0}
  Distinct ((k, v) ∷ m) = (get k m ≡ none) × Distinct m

  pub get-set_self : (k : K) (v : V) (m : List (K × V)) → get k (set k v m) ≡ some v
  get-set_self k v [] = ground arith
  get-set_self k v ((j, w) ∷ m) = ground (arith, get-set_self k v m)

  pub get-set_ne : (k j : K) (v : V) (m : List (K × V)) → k ≢ j → get j (set k v m) ≡ get j m
  get-set_ne k j v [] h = ground arith
  get-set_ne k j v ((i, w) ∷ m) h = ground (arith, get-set_ne k j v m h)

  pub get-delete_ne : (k j : K) (m : List (K × V)) → k ≢ j → get j (delete k m) ≡ get j m
  get-delete_ne k j [] h = refl
  get-delete_ne k j ((i, w) ∷ m) h = ground (arith, get-delete_ne k j m h)

  pub get-delete_self : (k : K) (m : List (K × V)) → Distinct m → get k (delete k m) ≡ none
  get-delete_self k [] h = refl
  get-delete_self k ((i, w) ∷ m) (h, d) = ground (arith, get-delete_self k m d)

  pub set-Distinct : (k : K) (v : V) (m : List (K × V)) → Distinct m → Distinct (set k v m)
  set-Distinct k v [] h = (refl, tt)
  set-Distinct k v ((i, w) ∷ m) (h, d) = ground (arith, set-Distinct k v m d, get-set_ne k i v m)

  pub get-delete_absent : (k j : K) (m : List (K × V)) → get j m ≡ none → get j (delete k m) ≡ none
  get-delete_absent k j [] h = refl
  get-delete_absent k j ((i, w) ∷ m) h = ground (arith, get-delete_absent k j m)

  pub delete-Distinct : (k : K) (m : List (K × V)) → Distinct m → Distinct (delete k m)
  delete-Distinct k [] h = tt
  delete-Distinct k ((i, w) ∷ m) (h, d) =
      ground (arith, delete-Distinct k m d, get-delete_absent k i m h)

  pub delete_absent : (k : K) (m : List (K × V)) → get k m ≡ none → delete k m ≡ m
  delete_absent k [] h = refl
  delete_absent k ((i, w) ∷ m) h = ground (arith, delete_absent k m)

  pub delete-set : (k : K) (v : V) (m : List (K × V)) → delete k (set k v m) ≡ delete k m
  delete-set k v [] = ground arith
  delete-set k v ((i, w) ∷ m) = ground (arith, delete-set k v m)

  pub get_head : (k : K) (v : V) (m : List (K × V)) → get k ((k, v) ∷ m) ≡ some v
  get_head k v m = ground arith

  pub set_absent :
      (k : K) (v : V) (m : List (K × V)) → get k m ≡ none → set k v m ≡ m ++ ((k, v) ∷ [])
  set_absent k v [] h = refl
  set_absent k v ((j, w) ∷ m) h = ground (arith, set_absent k v m)

  pub get-append_absent :
      (j k : K) (v : V) (m : List (K × V))
      → get j m ≡ none
      → j ≢ k
      → get j (m ++ ((k, v) ∷ [])) ≡ none
  get-append_absent j k v [] h ne = ground arith
  get-append_absent j k v ((i, w) ∷ m) h ne = ground (arith, get-append_absent j k v m)

  pub Distinct-append :
      (k : K) (v : V) (m : List (K × V))
      → Distinct m
      → get k m ≡ none
      → Distinct (m ++ ((k, v) ∷ []))
  Distinct-append k v [] d h = (refl, tt)
  Distinct-append k v ((i, w) ∷ m) (a, d) h =
      ground (arith, Distinct-append k v m d, get-append_absent i k v m a)

  pub length-delete :
      (k : K) (v : V) (m : List (K × V)) → get k m ≡ some v → length (delete k m) + 1 ≡ length m
  length-delete k v [] h = cc
  length-delete k v ((j, w) ∷ m) h = ground (arith, length-delete k v m)

  pub length-set_le : (k : K) (v : V) (m : List (K × V)) → length (set k v m) ≤ length m + 1
  length-set_le k v [] = omega arith
  length-set_le k v ((j, w) ∷ m) = ground (arith, length-set_le k v m)

module _ {K : Type 0} (eq : Discrete K) {V W : Type 0} (f : V → W) where
  pub get-map_values :
      (k : K) (m : List (K × V)) → get eq k (map_values f m) ≡ Option.map f (get eq k m)
  get-map_values k [] = refl
  get-map_values k ((j, v) ∷ m) = ground (arith, get-map_values k m)

  pub map_values-set :
      (k : K) (v : V) (m : List (K × V))
      → map_values f (set eq k v m) ≡ set eq k (f v) (map_values f m)
  map_values-set k v [] = refl
  map_values-set k v ((j, w) ∷ m) = ground (arith, map_values-set k v m)

  pub map_values-delete :
      (k : K) (m : List (K × V)) → map_values f (delete eq k m) ≡ delete eq k (map_values f m)
  map_values-delete k [] = refl
  map_values-delete k ((j, w) ∷ m) = ground (arith, map_values-delete k m)

module _ {K : Type 0} (eq : Discrete K) where
  pub sum_values-set :
      (k : K) (n : ℕ) (m : List (K × ℕ))
      → sum_values (set eq k n m) + or_zero (get eq k m) ≡ sum_values m + n
  sum_values-set k n [] = omega arith
  sum_values-set k n ((j, v) ∷ m) = ground (arith, sum_values-set k n m)

  pub sum_values-delete :
      (k : K) (m : List (K × ℕ)) → sum_values (delete eq k m) + or_zero (get eq k m) ≡ sum_values m
  sum_values-delete k [] = omega arith
  sum_values-delete k ((j, v) ∷ m) = ground (arith, sum_values-delete k m)

  pub contains-set_self :
      {V : Type 0} (k : K) (v : V) (m : List (K × V)) → contains eq k (set eq k v m) ≡ true
  contains-set_self k v [] = ground arith
  contains-set_self k v ((j, w) ∷ m) = ground (arith, contains-set_self k v m)

  pub contains-set :
      {V : Type 0} (j k : K) (v : V) (m : List (K × V))
      → contains eq j m ≡ true
      → contains eq j (set eq k v m) ≡ true
  contains-set j k v [] h = cc
  contains-set j k v ((i, w) ∷ m) h = ground (arith, contains-set j k v m)

  -- A set of keys, in insertion order.
  abbrev pub has : K → List K → Bool
  has k [] = false
  has k (j ∷ s) = ite (eq j k) true (has k s)

  abbrev pub add : K → List K → List K
  add k [] = k ∷ []
  add k (j ∷ s) = ite (eq j k) (j ∷ s) (j ∷ add k s)

  abbrev pub remove : K → List K → List K
  remove k [] = []
  remove k (j ∷ s) = ite (eq j k) s (j ∷ remove k s)

  pub has-add_self : (k : K) (s : List K) → has k (add k s) ≡ true
  has-add_self k [] = ground arith
  has-add_self k (j ∷ s) = ground (arith, has-add_self k s)

  pub has-add : (j k : K) (s : List K) → has j s ≡ true → has j (add k s) ≡ true
  has-add j k [] h = cc
  has-add j k (i ∷ s) h = ground (arith, has-add j k s)

  pub has-add_cases : (j k : K) (s : List K) → has j (add k s) ≡ true → (has j s ≡ true) ⊎ (j ≡ k)
  has-add_cases j k [] h = elim (eq k j) [ yes e ↦ inr (sym e) | no e ↦ ground arith ]
  has-add_cases j k (i ∷ s) h = elim (eq i j) [
    | yes e ↦ inl (ground arith)
    | no e ↦ elim (eq i k) [
      | yes f ↦ ground arith
      | no f ↦ elim (has-add_cases j k s (ground arith)) [
        | inl b ↦ inl (ground arith)
        | inr b ↦ inr b
      ]
    ]
  ]

  pub add_present : (k j : K) (s : List K) → j ≡ k → add k (j ∷ s) ≡ j ∷ s
  add_present k j s h = ground arith

  pub add_behind : (k j : K) (s : List K) → j ≢ k → add k (j ∷ s) ≡ j ∷ add k s
  add_behind k j s h = ground arith

  pub remove_head : (k : K) (s : List K) → remove k (k ∷ s) ≡ s
  remove_head k s = ground arith
