-- ===== src/Native/WriteQueue/Taking.antt =====
-- What leaves the array at its head, within the loop of `flush`.
use ferricstore_typescript.Common.{
  ℕ, zero, suc, ◌+◌, ◌-◌, ◌<◌, ◌≡◌, inl, inr, refl, sym, ap, ◌∙◌, Bool, true, none, some, List, [],
  ◌∷◌, length, take, get_elem?, Option-cases, arith,
}
use mathlib.Core.Option.{some-injective}
use native.Mathlib.Decide.{ℕ_discrete}
use ferricstore_typescript.Common.Maps.{delete}
use ferricstore_typescript.Native.WriteQueue.{
  QueuedWrite, Queue, SocketAnswer, accepted, full, failed, clear_at, keep_live, reject_pending,
  written, take_head,
}
use ferricstore_typescript.Native.WriteQueue.Arrays.{keep_live_dead, keep_live_kept, Absent, Unique}
use ferricstore_typescript.Native.WriteQueue.Waiting.{
  or_empty, view, waiting, Layout, Account, AllBelow,
}

-- The invariant within the loop, where something may wait though the socket takes frames.
abbrev pub Draining : Queue → Type 0
Draining s =
    Layout s.next_serial s.head s.writes
    × Account s.by_request s.queued_bytes s.max_queued_bytes true (keep_live s.writes)

dead_behind :
    (i : ℕ) (p : QueuedWrite) (qs : List QueuedWrite)
    → keep_live (take (suc i) (p ∷ qs)) ≡ []
    → (p.frame ≡ none) × (keep_live (take i qs) ≡ [])
unfolding keep_live
dead_behind i p qs h = elim (Option-cases p.frame) [
  | inl e ↦ (e, sym (keep_live_dead p (take i qs) e) ∙ h)
  | inr (f, e) ↦ (let g = rw (keep_live_kept p (take i qs) f e) at h in cc)
]

-- An entry without a frame at the head.
dead_at :
    (i : ℕ) (qs : List QueuedWrite) (q : QueuedWrite)
    → keep_live (take i qs) ≡ []
    → get_elem? qs i ≡ some q
    → q.frame ≡ none
    → keep_live (take (suc i) qs) ≡ []
unfolding keep_live
dead_at i [] q h g e = cc
dead_at zero (p ∷ qs) q h g e = keep_live_dead p [] (ap (λ x. x.frame) (some-injective p q g) ∙ e)
dead_at (suc i) (p ∷ qs) q h g e =
    let (d, rest) = dead_behind i p qs h in
    keep_live_dead p (take (suc i) qs) d ∙ dead_at i qs q rest g e

-- An entry with a frame at the head is the first that waits.
taken_at :
    (i : ℕ) (qs : List QueuedWrite) (q : QueuedWrite) (f : List ℕ)
    → keep_live (take i qs) ≡ []
    → get_elem? qs i ≡ some q
    → q.frame ≡ some f
    → (keep_live qs ≡ q ∷ keep_live (clear_at i qs))
      × (keep_live (take (suc i) (clear_at i qs)) ≡ [])
unfolding keep_live clear_at
taken_at i [] q f h g e = cc
taken_at zero (p ∷ qs) q f h g e =
    let same = some-injective p q g in
    (keep_live_kept p qs f (ap (λ x. x.frame) same ∙ e) ∙ ap (λ x. x ∷ keep_live qs) same, refl)
taken_at (suc i) (p ∷ qs) q f h g e =
    let (d, rest) = dead_behind i p qs h in
    let (live, dead) = taken_at i qs q f rest g e in
    (
      keep_live_dead p qs d ∙ live ∙ ap (λ x. q ∷ x) (sym (keep_live_dead p (clear_at i qs) d)),
      keep_live_dead p (take (suc i) (clear_at i qs)) d ∙ dead,
    )

Absent-clear_at : (j i : ℕ) (qs : List QueuedWrite) → Absent j qs → Absent j (clear_at i qs)
unfolding clear_at
Absent-clear_at j i [] a = tt
Absent-clear_at j zero (q ∷ qs) a = a
Absent-clear_at j (suc i) (q ∷ qs) (b, a) = (b, Absent-clear_at j i qs a)

Unique-clear_at : (i : ℕ) (qs : List QueuedWrite) → Unique qs → Unique (clear_at i qs)
unfolding clear_at
Unique-clear_at i [] u = tt
Unique-clear_at zero (q ∷ qs) u = u
Unique-clear_at (suc i) (q ∷ qs) (a, u) = (Absent-clear_at q.serial i qs a, Unique-clear_at i qs u)

AllBelow-clear_at :
    (next i : ℕ) (qs : List QueuedWrite) → AllBelow next qs → AllBelow next (clear_at i qs)
unfolding clear_at
AllBelow-clear_at next i [] b = tt
AllBelow-clear_at next zero (q ∷ qs) b = b
AllBelow-clear_at next (suc i) (q ∷ qs) (b, bs) = (b, AllBelow-clear_at next i qs bs)

pub length-clear_at : (i : ℕ) (qs : List QueuedWrite) → length (clear_at i qs) ≡ length qs
unfolding clear_at
length-clear_at i [] = refl
length-clear_at zero (q ∷ qs) = refl
length-clear_at (suc i) (q ∷ qs) = ap suc (length-clear_at i qs)

-- The account when the first of those that wait has left.
Account-tail :
    (by_request : List (ℕ × ℕ)) (bytes max_bytes : ℕ) (blocked : Bool) (q : QueuedWrite)
    (live : List QueuedWrite)
    → Account by_request bytes max_bytes true (q ∷ live)
    → Account (delete ℕ_discrete q.request_id by_request) (bytes - q.bytes) max_bytes true live
Account-tail by_request bytes max_bytes blocked q live a = record {
  index_eq = ap (delete ℕ_discrete q.request_id) a.index_eq ∙ ground arith;
  bytes_eq = omega (arith, a.bytes_eq);
  measured = a.measured.1;
  distinct = a.distinct.1;
  within = omega (arith, a.within);
  idle = λ b. cc;
}

pub step_over :
    (s : Queue) (q : QueuedWrite) (tombstones : ℕ)
    → Draining s
    → s.head < length s.writes
    → get_elem? s.writes s.head ≡ some q
    → q.frame ≡ none
    → Draining (record s { head = s.head + 1; tombstones = tombstones })
step_over s q tombstones (l, a) h g e =
    let next : s.head + 1 ≡ suc s.head = omega arith in
    (
      record {
        unique = l.unique;
        below = l.below;
        head_le = omega arith;
        dead = ap (λ n. keep_live (take n s.writes)) next ∙ dead_at s.head s.writes q l.dead g e;
      },
      a,
    )

-- What the loop has where the entry at the head has a frame.
pub taken_parts :
    (s : Queue) (q : QueuedWrite) (f : List ℕ)
    → Draining s
    → s.head < length s.writes
    → get_elem? s.writes s.head ≡ some q
    → q.frame ≡ some f
    → Draining (take_head q s) × (waiting s ≡ (q.request_id, f) ∷ waiting (take_head q s))
unfolding take_head
taken_parts s q f (l, a) h g e =
    let next : s.head + 1 ≡ suc s.head = omega arith in
    let (live, dead) = taken_at s.head s.writes q f l.dead g e in
    (
      (
        record {
          unique = Unique-clear_at s.head s.writes l.unique;
          below = AllBelow-clear_at s.next_serial s.head s.writes l.below;
          head_le = omega (arith, length-clear_at s.head s.writes);
          dead = ap (λ n. keep_live (take n (clear_at s.head s.writes))) next ∙ dead;
        },
        Account-tail s.by_request s.queued_bytes s.max_queued_bytes true q _ (rw live at a),
      ),
      ap view live
          ∙ ap (λ o. (q.request_id, or_empty o) ∷ view (keep_live (clear_at s.head s.writes))) e,
    )

pub written-Draining :
    (id : ℕ) (frame : List ℕ) (outcome : SocketAnswer) (s : Queue)
    → Draining s
    → Draining (written id frame outcome s)
unfolding written reject_pending
written-Draining id frame accepted s w = w
written-Draining id frame full s w = w
written-Draining id frame failed s w = w
