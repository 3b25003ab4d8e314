-- ===== src/Native/WriteQueue/Arrays.antt =====
-- The array of entries: those that still have a frame, and what clearing one does to them.
use ferricstore_typescript.Common.{
  ℕ, ◌+◌, ◌≡◌, ◌≢◌, inl, inr, refl, ap, ◌∙◌, none, some, List, [], ◌∷◌, ◌++◌, ◌==◌, if◌then◌else◌,
  arith, Option-cases,
}
use native.Mathlib.Decide.{ℕ_discrete}
use ferricstore_typescript.Common.Maps.{get, delete}
use ferricstore_typescript.Native.WriteQueue.{
  QueuedWrite, cleared, clear_serial, find_serial, keep_if, keep_live,
}

pub keep_live_dead :
    (q : QueuedWrite) (qs : List QueuedWrite) → q.frame ≡ none → keep_live (q ∷ qs) ≡ keep_live qs
unfolding keep_live
keep_live_dead q qs e = ap (λ o. keep_if o q (keep_live qs)) e

pub keep_live_kept :
    (q : QueuedWrite) (qs : List QueuedWrite) (f : List ℕ)
    → q.frame ≡ some f
    → keep_live (q ∷ qs) ≡ q ∷ keep_live qs
unfolding keep_live
keep_live_kept q qs f e = ap (λ o. keep_if o q (keep_live qs)) e

-- The map of requests that belongs to the entries.
abbrev pub request_index : List QueuedWrite → List (ℕ × ℕ)
request_index [] = []
request_index (q ∷ qs) = (q.request_id, q.serial) ∷ request_index qs

abbrev pub sum_bytes : List QueuedWrite → ℕ
sum_bytes [] = 0
sum_bytes (q ∷ qs) = q.bytes + sum_bytes qs

-- No entry has the identity `k`.
abbrev pub Absent : ℕ → List QueuedWrite → Type 0
Absent k [] = Unit {0}
Absent k (q ∷ qs) = (q.serial ≢ k) × Absent k qs

-- No identity twice.
abbrev pub Unique : List QueuedWrite → Type 0
Unique [] = Unit {0}
Unique (q ∷ qs) = Absent q.serial qs × Unique qs

-- The entries without the first of a request.
abbrev pub without : ℕ → List QueuedWrite → List QueuedWrite
without id [] = []
without id (q ∷ qs) = if q.request_id == id then qs else q ∷ without id qs

pub request_index-without :
    (id : ℕ) (qs : List QueuedWrite)
    → request_index (without id qs) ≡ delete ℕ_discrete id (request_index qs)
request_index-without id [] = refl
request_index-without id (q ∷ qs) = ground (arith, request_index-without id qs)

-- A reference of the map is to an entry that is there.
mapped_is_there :
    (id k : ℕ) (qs : List QueuedWrite)
    → Absent k qs
    → get ℕ_discrete id (request_index (keep_live qs)) ≢ some k
unfolding keep_live
mapped_is_there id k [] a h = cc
mapped_is_there id k (q ∷ qs) (a, as') h = elim (Option-cases q.frame) [
  | inl e ↦ mapped_is_there id k qs as' (rw (keep_live_dead q qs e) at h)
  | inr (f, e) ↦
      (let g = rw (keep_live_kept q qs f e) at h in ground (arith, mapped_is_there id k qs as'))
]

-- What a reference of the map says of the array.
pub record Cancelled (id k : ℕ) (qs : List QueuedWrite) : Type 0 where
  pub entry : QueuedWrite
  pub frame : List ℕ
  pub found : find_serial k qs ≡ some entry
  pub kept : entry.frame ≡ some frame
  pub serial_eq : entry.serial ≡ k
  pub live_eq : keep_live (clear_serial k qs) ≡ without id (keep_live qs)
  pub sum_eq : sum_bytes (keep_live qs) ≡ sum_bytes (without id (keep_live qs)) + entry.bytes

found_behind :
    (k : ℕ) (q : QueuedWrite) (qs : List QueuedWrite)
    → q.serial ≢ k
    → find_serial k (q ∷ qs) ≡ find_serial k qs
unfolding find_serial
found_behind k q qs e = ground arith

found_here :
    (k : ℕ) (q : QueuedWrite) (qs : List QueuedWrite)
    → q.serial ≡ k
    → find_serial k (q ∷ qs) ≡ some q
unfolding find_serial
found_here k q qs e = ground arith

pub without_here :
    (id : ℕ) (q : QueuedWrite) (qs : List QueuedWrite)
    → q.request_id ≡ id
    → without id (q ∷ qs) ≡ qs
without_here id q qs e = ground arith

without_behind :
    (id : ℕ) (q : QueuedWrite) (qs : List QueuedWrite)
    → q.request_id ≢ id
    → without id (q ∷ qs) ≡ q ∷ without id qs
without_behind id q qs e = ground arith

pub cleared_dead :
    (q : QueuedWrite) (qs : List QueuedWrite) → keep_live (cleared q ∷ qs) ≡ keep_live qs
unfolding keep_live
cleared_dead q qs = refl

clear_behind :
    (k : ℕ) (q : QueuedWrite) (qs : List QueuedWrite)
    → q.serial ≢ k
    → clear_serial k (q ∷ qs) ≡ q ∷ clear_serial k qs
unfolding clear_serial
clear_behind k q qs e = ground arith

clear_here :
    (k : ℕ) (q : QueuedWrite) (qs : List QueuedWrite)
    → q.serial ≡ k
    → clear_serial k (q ∷ qs) ≡ cleared q ∷ qs
unfolding clear_serial
clear_here k q qs e = ground arith

behind_dead :
    (id k : ℕ) (q : QueuedWrite) (qs : List QueuedWrite)
    → q.frame ≡ none
    → q.serial ≢ k
    → Cancelled id k qs
    → Cancelled id k (q ∷ qs)
behind_dead id k q qs e ne c = record {
  entry = c.entry;
  frame = c.frame;
  found = found_behind k q qs ne ∙ c.found;
  kept = c.kept;
  serial_eq = c.serial_eq;
  live_eq =
      rw (clear_behind k q qs ne, keep_live_dead q (clear_serial k qs) e, keep_live_dead q qs e)
        c.live_eq;
  sum_eq = rw (keep_live_dead q qs e) c.sum_eq;
}

behind_kept :
    (id k : ℕ) (q : QueuedWrite) (qs : List QueuedWrite) (f : List ℕ)
    → q.frame ≡ some f
    → q.request_id ≢ id
    → q.serial ≢ k
    → Cancelled id k qs
    → Cancelled id k (q ∷ qs)
behind_kept id k q qs f e other ne c = record {
  entry = c.entry;
  frame = c.frame;
  found = found_behind k q qs ne ∙ c.found;
  kept = c.kept;
  serial_eq = c.serial_eq;
  live_eq =
      rw
        (
          clear_behind k q qs ne,
          keep_live_kept q (clear_serial k qs) f e,
          keep_live_kept q qs f e,
          without_behind id q (keep_live qs) other,
        )
        (ap (λ xs. q ∷ xs) c.live_eq);
  sum_eq =
      rw (keep_live_kept q qs f e, without_behind id q (keep_live qs) other)
        (omega (arith, c.sum_eq));
}

entry_here :
    (id k : ℕ) (q : QueuedWrite) (qs : List QueuedWrite) (f : List ℕ)
    → q.frame ≡ some f
    → q.request_id ≡ id
    → q.serial ≡ k
    → Cancelled id k (q ∷ qs)
entry_here id k q qs f e same at_k = record {
  entry = q;
  frame = f;
  found = found_here k q qs at_k;
  kept = e;
  serial_eq = at_k;
  live_eq =
      rw (clear_here k q qs at_k, keep_live_kept q qs f e, without_here id q (keep_live qs) same)
        (cleared_dead q qs);
  sum_eq = rw (keep_live_kept q qs f e, without_here id q (keep_live qs) same) (omega arith);
}

mapped_here :
    (id k : ℕ) (q : QueuedWrite) (qs : List QueuedWrite)
    → q.request_id ≡ id
    → get ℕ_discrete id (request_index (q ∷ qs)) ≡ some k
    → q.serial ≡ k
mapped_here id k q qs same h = ground arith

mapped_behind :
    (id k : ℕ) (q : QueuedWrite) (qs : List QueuedWrite)
    → q.request_id ≢ id
    → get ℕ_discrete id (request_index (q ∷ qs)) ≡ some k
    → get ℕ_discrete id (request_index qs) ≡ some k
mapped_behind id k q qs other h = ground arith

-- Where the map refers to an entry, clearing it takes its request out of the live ones.
pub entry_of_mapped :
    (id k : ℕ) (qs : List QueuedWrite)
    → Unique qs
    → get ℕ_discrete id (request_index (keep_live qs)) ≡ some k
    → Cancelled id k qs
unfolding keep_live
entry_of_mapped id k [] u h = cc
entry_of_mapped id k (q ∷ qs) (a, u) h =
    let apart : get ℕ_discrete id (request_index (keep_live qs)) ≡ some k → q.serial ≢ k =
      λ g e. mapped_is_there id k qs (rw e at a) g in
    elim (Option-cases q.frame) [
      | inl e ↦
          (let g = rw (keep_live_dead q qs e) at h in
            behind_dead id k q qs e (apart g) (entry_of_mapped id k qs u g))
      | inr (f, e) ↦
          (let g = rw (keep_live_kept q qs f e) at h in
            elim (ℕ_discrete q.request_id id) [
              | yes same ↦ entry_here id k q qs f e same (mapped_here id k q (keep_live qs) same g)
              | no other ↦
                  (let g1 = mapped_behind id k q (keep_live qs) other g in
                    behind_kept id k q qs f e other (apart g1) (entry_of_mapped id k qs u g1))
            ])
    ]

-- Identities stay what they are.
pub Absent-clear_serial :
    (j k : ℕ) (qs : List QueuedWrite) → Absent j qs → Absent j (clear_serial k qs)
unfolding clear_serial
Absent-clear_serial j k [] a = tt
Absent-clear_serial j k (q ∷ qs) (a, as') = ground (arith, Absent-clear_serial j k qs as')

pub Unique-clear_serial : (k : ℕ) (qs : List QueuedWrite) → Unique qs → Unique (clear_serial k qs)
unfolding clear_serial
Unique-clear_serial k [] u = tt
Unique-clear_serial k (q ∷ qs) (a, u) =
    ground (arith, Unique-clear_serial k qs u, Absent-clear_serial q.serial k qs a)

pub Absent-keep_live : (j : ℕ) (qs : List QueuedWrite) → Absent j qs → Absent j (keep_live qs)
unfolding keep_live
Absent-keep_live j [] a = tt
Absent-keep_live j (q ∷ qs) (a, as') = elim (Option-cases q.frame) [
  | inl e ↦ rw (keep_live_dead q qs e) (Absent-keep_live j qs as')
  | inr (f, e) ↦ rw (keep_live_kept q qs f e) (a, Absent-keep_live j qs as')
]

pub Unique-keep_live : (qs : List QueuedWrite) → Unique qs → Unique (keep_live qs)
unfolding keep_live
Unique-keep_live [] u = tt
Unique-keep_live (q ∷ qs) (a, u) = elim (Option-cases q.frame) [
  | inl e ↦ rw (keep_live_dead q qs e) (Unique-keep_live qs u)
  | inr (f, e) ↦
      rw (keep_live_kept q qs f e) (Absent-keep_live q.serial qs a, Unique-keep_live qs u)
]

pub keep_live_twice : (qs : List QueuedWrite) → keep_live (keep_live qs) ≡ keep_live qs
unfolding keep_live
keep_live_twice [] = refl
keep_live_twice (q ∷ qs) = elim (Option-cases q.frame) [
  | inl e ↦ rw (keep_live_dead q qs e) (keep_live_twice qs)
  | inr (f, e) ↦
      rw (keep_live_kept q qs f e, keep_live_kept q (keep_live qs) f e)
        (ap (λ xs. q ∷ xs) (keep_live_twice qs))
]

pub keep_live-append :
    (qs rs : List QueuedWrite) → keep_live (qs ++ rs) ≡ keep_live qs ++ keep_live rs
unfolding keep_live
keep_live-append [] rs = refl
keep_live-append (q ∷ qs) rs = elim (Option-cases q.frame) [
  | inl e ↦ rw (keep_live_dead q qs e, keep_live_dead q (qs ++ rs) e) (keep_live-append qs rs)
  | inr (f, e) ↦
      rw (keep_live_kept q qs f e, keep_live_kept q (qs ++ rs) f e)
        (ap (λ xs. q ∷ xs) (keep_live-append qs rs))
]
