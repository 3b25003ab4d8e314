-- ===== src/Native/FlowControl/Queues.antt =====
-- The array with a head index of a lane's waiters, as the list of those still waiting.
use Prim.Native.Nat.{ℕ, zero, suc, ◌+◌, ◌≤◌}
use mathlib.Core.Path.{◌≡◌, refl, sym, ap, ◌∙◌}
use mathlib.Core.Logic.{inl, inr}
use mathlib.Core.Bool.{true, false}
use mathlib.Core.Option.{Option, none, some}
use mathlib.Core.List.{List, [], ◌∷◌}
use native.Mathlib.Omega.{arith}
use ferricstore_typescript.Common.{
  length, get_elem?, drop, drop-get_elem?, drop_past_end, drop_all, Bool-cases,
}
use ferricstore_typescript.Native.FlowControl.{
  LaneQueue, is_settled, unsettled, needs_compaction, compact_waiters, next_slot, take_slot,
  take_loop, take_waiter,
}

-- The waiters of a queue that are still waiting, the oldest first.
abbrev pub pending : List ℕ → LaneQueue → List ℕ
pending settled q = unsettled settled (drop q.head q.waiters)

abbrev pub Takes : List ℕ → LaneQueue → LaneQueue × Option ℕ → Type 0
Takes settled q (r, none) = pending settled q ≡ []
Takes settled q (r, some w) = pending settled q ≡ w ∷ pending settled r

unsettled_skip :
    (settled : List ℕ) (w : ℕ) (ws : List ℕ)
    → is_settled w settled ≡ true
    → unsettled settled (w ∷ ws) ≡ unsettled settled ws
unfolding unsettled
unsettled_skip settled w ws e = rw e refl

unsettled_keep :
    (settled : List ℕ) (w : ℕ) (ws : List ℕ)
    → is_settled w settled ≡ false
    → unsettled settled (w ∷ ws) ≡ w ∷ unsettled settled ws
unfolding unsettled
unsettled_keep settled w ws e = rw e refl

unsettled_again :
    (settled ws : List ℕ) → unsettled settled (unsettled settled ws) ≡ unsettled settled ws
unfolding unsettled
unsettled_again settled [] = refl
unsettled_again settled (w ∷ ws) = elim (Bool-cases (is_settled w settled)) [
  | inl e ↦ rw e (unsettled_again settled ws)
  | inr e ↦ rw (e, e) (ap (◌∷◌ w) (unsettled_again settled ws))
]

pending_none :
    (settled : List ℕ) (q : LaneQueue) → drop q.head q.waiters ≡ [] → pending settled q ≡ []
unfolding unsettled
pending_none settled q e = rw e refl

Takes-skip :
    (settled : List ℕ) (q p : LaneQueue) (r : LaneQueue × Option ℕ)
    → pending settled q ≡ pending settled p
    → Takes settled p r
    → Takes settled q r
Takes-skip settled q p (r, none) e t = e ∙ t
Takes-skip settled q p (r, some w) e t = e ∙ t

next_pending :
    (settled : List ℕ) (q : LaneQueue) (w : ℕ)
    → get_elem? q.waiters q.head ≡ some w
    → pending settled q ≡ unsettled settled (w ∷ drop (next_slot q).head (next_slot q).waiters)
unfolding next_slot
next_pending settled q w e = ap (unsettled settled) (drop-get_elem? q.head q.waiters w e).0

take_slot-Takes :
    (settled : List ℕ) (q : LaneQueue) (o : Option ℕ) (rest : LaneQueue × Option ℕ)
    → get_elem? q.waiters q.head ≡ o
    → Takes settled (next_slot q) rest
    → Takes settled q (take_slot settled q o rest)
unfolding take_slot
take_slot-Takes settled q none rest e t = pending_none settled q (drop_past_end q.head q.waiters e)
take_slot-Takes settled q (some w) rest e t = elim (Bool-cases (is_settled w settled)) [
  | inl s ↦ rw s (
      Takes-skip settled q (next_slot q) rest
        (next_pending settled q w e ∙ unsettled_skip settled w _ s) t)
  | inr s ↦ rw s (next_pending settled q w e ∙ unsettled_keep settled w _ s)
]

slots_left :
    (n : ℕ) (q : LaneQueue)
    → length q.waiters ≤ q.head + suc n
    → length (next_slot q).waiters ≤ (next_slot q).head + n
unfolding next_slot
slots_left n q h = omega arith

take_loop-Takes :
    (n : ℕ) (settled : List ℕ) (q : LaneQueue)
    → length q.waiters ≤ q.head + n
    → Takes settled q (take_loop n settled q)
unfolding take_loop
take_loop-Takes zero settled q h = pending_none settled q (drop_all q.head q.waiters (omega arith))
take_loop-Takes (suc n) settled q h =
    take_slot-Takes settled q (get_elem? q.waiters q.head) (take_loop n settled (next_slot q)) refl
      (take_loop-Takes n settled (next_slot q) (slots_left n q h))

compact_waiters-pending :
    (settled : List ℕ) (q : LaneQueue)
    → pending settled (compact_waiters settled q) ≡ pending settled q
unfolding compact_waiters
compact_waiters-pending settled q = elim (Bool-cases (needs_compaction q)) [
  | inl e ↦ rw e (unsettled_again settled (drop q.head q.waiters))
  | inr e ↦ rw e refl
]

-- Taking a waiter from a lane's queue gives the oldest one that is still waiting and leaves the
-- others in their order, or gives nothing when none is left, and compaction changes none of this.
pub take_waiter_oldest :
    (settled : List ℕ) (q : LaneQueue)
    → Takes settled q (take_waiter settled (compact_waiters settled q))
      × (pending settled (compact_waiters settled q) ≡ pending settled q)
unfolding take_waiter
take_waiter_oldest settled q =
    let c : LaneQueue = compact_waiters settled q in
    let e = compact_waiters-pending settled q in
    (
      Takes-skip settled q c (take_waiter settled c) (sym e)
          (take_loop-Takes (length c.waiters) settled c (omega arith)),
      e,
    )
