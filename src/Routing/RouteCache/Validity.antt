-- ===== src/Routing/RouteCache/Validity.antt =====
-- The invariant of the route cache, and that its changes keep it.
use Prim.Native.Nat.{ℕ, zero, suc, ◌+◌, ◌-◌, ◌≤◌}
use mathlib.Core.Path.{◌≡◌, refl, sym, ◌∙◌}
use mathlib.Core.Logic.{inl, inr}
use mathlib.Core.Bool.{false}
use mathlib.Core.Option.{none, some}
use mathlib.Core.List.{List, [], ◌∷◌}
use native.Mathlib.Omega.{arith}
use ferricstore_typescript.Common.{length, Bool-cases}
use ferricstore_typescript.Common.Maps.{
  get, set, delete, Distinct, sum_values, map_values, get_head, get-set_self, get-set_ne,
  get-delete_self, get-delete_ne, get-delete_absent, delete-Distinct, length-delete, sum_values-set,
  sum_values-delete, map_values-set, map_values-delete, get-map_values,
}
use ferricstore_typescript.Routing.RouteCache.{
  CacheEntry, RouteCache, max_cache_bytes, max_cache_entries, evict_first, evict_oldest, must_evict,
  evict_loop,
}

abbrev entry_bytes : CacheEntry → ℕ
entry_bytes e = e.bytes

abbrev pub total : List (List ℕ × CacheEntry) → ℕ
total m = sum_values (map_values entry_bytes m)

module _ (same_text : Discrete (List ℕ)) (base64 route : List ℕ → List ℕ)
    (base64_injective : (a b : List ℕ) → base64 a ≡ base64 b → a ≡ b) where
  -- Every entry holds the route of the bytes that its key stands for.
  abbrev pub IsRight : List (List ℕ × CacheEntry) → Type 0
  IsRight m =
      (bytes : List ℕ) (e : CacheEntry)
      → get same_text (base64 bytes) m ≡ some e
      → e.route_key ≡ route bytes

  pub record IsValid (s : RouteCache) : Type 0 where
    pub distinct : Distinct same_text s.entries
    pub bytes_eq : s.cache_bytes ≡ total s.entries
    pub bytes_le : s.cache_bytes ≤ max_cache_bytes
    pub entries_le : length s.entries ≤ max_cache_entries
    pub right : IsRight s.entries

  pub total-delete :
      (k : List ℕ) (e : CacheEntry) (m : List (List ℕ × CacheEntry))
      → get same_text k m ≡ some e
      → total (delete same_text k m) + e.bytes ≡ total m
  total-delete k e m h =
      let f = get-map_values same_text entry_bytes k m in
      let g = sum_values-delete same_text k (map_values entry_bytes m) in
      rw (map_values-delete same_text entry_bytes k m) (rw (f, h) at g)

  pub total-set :
      (k : List ℕ) (e : CacheEntry) (m : List (List ℕ × CacheEntry))
      → get same_text k m ≡ none
      → total (set same_text k e m) ≡ total m + e.bytes
  total-set k e m h =
      let f = get-map_values same_text entry_bytes k m in
      let g = sum_values-set same_text k e.bytes (map_values entry_bytes m) in
      rw (map_values-set same_text entry_bytes k e m) (omega (arith, rw (f, h) at g))

  pub delete-IsRight :
      (k : List ℕ) (m : List (List ℕ × CacheEntry))
      → Distinct same_text m
      → IsRight m
      → IsRight (delete same_text k m)
  delete-IsRight k m d r bytes e h = elim (same_text k (base64 bytes)) [
    | yes p ↦ (let f = get-delete_self same_text k m d in cc)
    | no p ↦ r bytes e (sym (get-delete_ne same_text k (base64 bytes) m p) ∙ h)
  ]

  pub set-IsRight :
      (own : List ℕ) (v : CacheEntry) (m : List (List ℕ × CacheEntry))
      → v.route_key ≡ route own
      → IsRight m
      → IsRight (set same_text (base64 own) v m)
  set-IsRight own v m w r bytes e h = elim (same_text (base64 own) (base64 bytes)) [
    | yes p ↦
        (let q = base64_injective own bytes p in
          let f = get-set_self same_text (base64 own) v m in
          let g : get same_text (base64 bytes) (set same_text (base64 own) v m) ≡ some v =
            rw (sym p) f in
          let y : some e ≡ some v = sym h ∙ g in let x : e ≡ v = cc in rw (x, sym q) w)
    | no p ↦ r bytes e (sym (get-set_ne same_text (base64 own) (base64 bytes) v m p) ∙ h)
  ]

  evict_first-IsValid :
      (m : List (List ℕ × CacheEntry)) (s : RouteCache)
      → m ≡ s.entries
      → IsValid s
      → IsValid (evict_first same_text m s)
        × (length (evict_first same_text m s).entries ≡ length s.entries - 1)
  unfolding evict_first
  evict_first-IsValid [] s h v = (v, rw (sym h) refl)
  evict_first-IsValid ((k, e) ∷ rest) s h v =
      let g : get same_text k s.entries ≡ some e = rw (sym h) (get_head same_text k e rest) in
      let t = total-delete k e s.entries g in
      let l = length-delete same_text k e s.entries g in
      (
        record {
          distinct = delete-Distinct same_text k s.entries v.distinct;
          bytes_eq = rw (v.bytes_eq) (omega arith);
          bytes_le = omega (arith, v.bytes_le);
          entries_le = omega (arith, v.entries_le);
          right = delete-IsRight k s.entries v.distinct v.right;
        },
        omega arith,
      )

  evict_first-absent :
      (m : List (List ℕ × CacheEntry)) (s : RouteCache) (k : List ℕ)
      → get same_text k s.entries ≡ none
      → get same_text k (evict_first same_text m s).entries ≡ none
  unfolding evict_first
  evict_first-absent [] s k h = h
  evict_first-absent ((j, e) ∷ rest) s k h = get-delete_absent same_text j k s.entries h

  empty_stays :
      (bytes : ℕ) (s : RouteCache) → length s.entries ≤ 0 → must_evict same_text bytes s ≡ false
  unfolding must_evict
  empty_stays bytes s h = ground arith

  -- The loop ends by its own condition.
  abbrev Evicted : ℕ → RouteCache → RouteCache → Type 0
  Evicted bytes s t =
      IsValid t
      × (must_evict same_text bytes t ≡ false)
      × ((k : List ℕ) → get same_text k s.entries ≡ none → get same_text k t.entries ≡ none)

  pub evict_loop-Evicted :
      (n bytes : ℕ) (s : RouteCache)
      → length s.entries ≤ n
      → IsValid s
      → Evicted bytes s (evict_loop same_text n bytes s)
  unfolding evict_loop evict_oldest
  evict_loop-Evicted zero bytes s h v = (v, empty_stays bytes s h, λ k e. e)
  evict_loop-Evicted (suc n) bytes s h v = elim (Bool-cases (must_evict same_text bytes s)) [
    | inr e ↦ rw e (v, e, λ k g. g)
    | inl e ↦ rw e (
        let t : RouteCache = evict_first same_text s.entries s in
        let (w, l) = evict_first-IsValid s.entries s refl v in
        let (w1, m1, a1) = evict_loop-Evicted n bytes t (omega arith) w in
        (w1, m1, λ k g. a1 k (evict_first-absent s.entries s k g)))
  ]
