-- ===== src/Native/WriteQueue/Waiting.antt =====
-- What waits, and the invariant of the queue: `write`, `cancel`, `reject_queued` and `clear`.
use ferricstore_typescript.Common.{
  ℕ, zero, suc, ◌+◌, ◌≤◌, ◌<◌, ◌≡◌, inl, inr, refl, sym, ap, Bool, false, Bool-cases, Option, none,
  some, List, [], ◌∷◌, ◌++◌, ◌==◌, if◌then◌else◌, length, take, drop, take-append-drop, arith,
  Option-cases,
}
use native.Mathlib.Decide.{ℕ_discrete}
use ferricstore_typescript.Common.Maps.{Distinct}
use ferricstore_typescript.Native.WriteQueue.{QueuedWrite, Queue, clear_serial, keep_live}
use ferricstore_typescript.Native.WriteQueue.Arrays.{
  keep_live_dead, keep_live_kept, request_index, sum_bytes, Unique, without, Unique-clear_serial,
  Unique-keep_live, keep_live-append,
}

abbrev pub or_empty : Option (List ℕ) → List ℕ
or_empty none = []
or_empty (some frame) = frame

-- The requests that wait, with their frames, in order.
abbrev pub view : List QueuedWrite → List (ℕ × List ℕ)
view [] = []
view (q ∷ qs) = (q.request_id, or_empty q.frame) ∷ view qs

abbrev pub waiting : Queue → List (ℕ × List ℕ)
waiting s = view (keep_live s.writes)

abbrev pub frame_bytes : List (ℕ × List ℕ) → ℕ
frame_bytes [] = 0
frame_bytes ((id, frame) ∷ ws) = length frame + frame_bytes ws

-- Without the first frame of a request.
abbrev pub withdraw : ℕ → List (ℕ × List ℕ) → List (ℕ × List ℕ)
withdraw id [] = []
withdraw id ((j, frame) ∷ ws) = if j == id then ws else (j, frame) ∷ withdraw id ws

pub view-without : (id : ℕ) (qs : List QueuedWrite) → view (without id qs) ≡ withdraw id (view qs)
view-without id [] = refl
view-without id (q ∷ qs) = ground (arith, view-without id qs)

pub view-append : (qs rs : List QueuedWrite) → view (qs ++ rs) ≡ view qs ++ view rs
view-append [] rs = refl
view-append (q ∷ qs) rs = ap (λ ws. (q.request_id, or_empty q.frame) ∷ ws) (view-append qs rs)

-- All identities are below `next`.
abbrev pub AllBelow : ℕ → List QueuedWrite → Type 0
AllBelow next [] = Unit {0}
AllBelow next (q ∷ qs) = (q.serial < next) × AllBelow next qs

abbrev pub AllMeasured : List QueuedWrite → Type 0
AllMeasured [] = Unit {0}
AllMeasured (q ∷ qs) = (q.bytes ≡ length (or_empty q.frame)) × AllMeasured qs

-- The array: no identity twice, and nothing with a frame before the head.
pub record Layout (next head : ℕ) (writes : List QueuedWrite) : Type 0 where
  pub unique : Unique writes
  pub below : AllBelow next writes
  pub head_le : head ≤ length writes
  pub dead : keep_live (take head writes) ≡ []

-- The map and the count of bytes are those of what waits; nothing waits where the socket takes
-- frames.
pub record Account (by_request : List (ℕ × ℕ)) (queued_bytes max_bytes : ℕ) (blocked : Bool)
    (live : List QueuedWrite) : Type 0 where
  pub index_eq : by_request ≡ request_index live
  pub bytes_eq : queued_bytes ≡ sum_bytes live
  pub measured : AllMeasured live
  pub distinct : Distinct ℕ_discrete (request_index live)
  pub within : queued_bytes ≤ max_bytes
  pub idle : blocked ≡ false → live ≡ []

abbrev pub AccountOf : Queue → Type 0
AccountOf s = Account s.by_request s.queued_bytes s.max_queued_bytes s.blocked (keep_live s.writes)

abbrev pub WellFormed : Queue → Type 0
WellFormed s = Layout s.next_serial s.head s.writes × AccountOf s

pub frame_bytes-view :
    (qs : List QueuedWrite) → AllMeasured qs → frame_bytes (view qs) ≡ sum_bytes qs
frame_bytes-view [] m = refl
frame_bytes-view (q ∷ qs) (e, m) = omega (arith, frame_bytes-view qs m)

pub AllBelow-keep_live :
    (next : ℕ) (qs : List QueuedWrite) → AllBelow next qs → AllBelow next (keep_live qs)
unfolding keep_live
AllBelow-keep_live next [] b = tt
AllBelow-keep_live next (q ∷ qs) (b, bs) = elim (Option-cases q.frame) [
  | inl e ↦ rw (keep_live_dead q qs e) (AllBelow-keep_live next qs bs)
  | inr (f, e) ↦ rw (keep_live_kept q qs f e) (b, AllBelow-keep_live next qs bs)
]

pub AllBelow-clear_serial :
    (next k : ℕ) (qs : List QueuedWrite) → AllBelow next qs → AllBelow next (clear_serial k qs)
unfolding clear_serial
AllBelow-clear_serial next k [] b = tt
AllBelow-clear_serial next k (q ∷ qs) (b, bs) = ground (arith, AllBelow-clear_serial next k qs bs)

length-clear_serial : (k : ℕ) (qs : List QueuedWrite) → length (clear_serial k qs) ≡ length qs
unfolding clear_serial
length-clear_serial k [] = refl
length-clear_serial k (q ∷ qs) = ground (arith, length-clear_serial k qs)

pub AllMeasured-without :
    (id : ℕ) (qs : List QueuedWrite) → AllMeasured qs → AllMeasured (without id qs)
AllMeasured-without id [] m = tt
AllMeasured-without id (q ∷ qs) (e, m) = ground (arith, AllMeasured-without id qs m)

-- Clearing an entry brings no other back.
dead-clear_serial :
    (k i : ℕ) (qs : List QueuedWrite)
    → keep_live (take i qs) ≡ []
    → keep_live (take i (clear_serial k qs)) ≡ []
unfolding keep_live clear_serial
dead-clear_serial k zero qs h = refl
dead-clear_serial k (suc i) [] h = h
dead-clear_serial k (suc i) (q ∷ qs) h = elim (Option-cases q.frame) [
  | inl e ↦
      (let g = rw (keep_live_dead q (take i qs) e) at h in
        elim (Bool-cases (q.serial == k)) [
          | inl b ↦ rw b g
          | inr b ↦
              rw (b, keep_live_dead q (take i (clear_serial k qs)) e) (dead-clear_serial k i qs g)
        ])
  | inr (f, e) ↦ (let g = rw (keep_live_kept q (take i qs) f e) at h in cc)
]

pub Layout-clear_serial :
    (next head k : ℕ) (qs : List QueuedWrite)
    → Layout next head qs
    → Layout next head (clear_serial k qs)
Layout-clear_serial next head k qs l = record {
  unique = Unique-clear_serial k qs l.unique;
  below = AllBelow-clear_serial next k qs l.below;
  head_le = omega (arith, length-clear_serial k qs, l.head_le);
  dead = dead-clear_serial k head qs l.dead;
}

-- What is left of the entries with a frame is an array of its own.
pub keep_live-Layout :
    (next head : ℕ) (qs : List QueuedWrite) → Layout next head qs → Layout next 0 (keep_live qs)
unfolding keep_live
keep_live-Layout next head qs l = record {
  unique = Unique-keep_live qs l.unique;
  below = AllBelow-keep_live next qs l.below;
  head_le = omega arith;
  dead = refl;
}

pub no_entries-Layout : (next : ℕ) → Layout next 0 []
unfolding keep_live
no_entries-Layout next = record { unique = tt; below = tt; head_le = omega arith; dead = refl }

pub keep_live-drop :
    (i : ℕ) (qs : List QueuedWrite)
    → keep_live (take i qs) ≡ []
    → keep_live (drop i qs) ≡ keep_live qs
keep_live-drop i qs h =
    let e = keep_live-append (take i qs) (drop i qs) in
    let g = rw (take-append-drop i qs, h) at e in sym g
