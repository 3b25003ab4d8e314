-- ===== src/Native/FlowControl/Accounts.antt =====
-- The credits: the total is the sum over the lanes after any calls, and the pump gives credits only
-- within the limits.
use Prim.Native.Nat.{ℕ, ◌+◌, ◌-◌}
use mathlib.Core.Path.{◌≡◌, refl, ap, ◌∙◌}
use mathlib.Core.Logic.{◌⊎◌, inl, inr}
use mathlib.Core.Bool.{Bool, true, false}
use mathlib.Core.Option.{Option, none, some}
use mathlib.Core.List.{List, [], ◌∷◌}
use native.Mathlib.Decide.{ℕ_discrete}
use native.Mathlib.Omega.{arith}
use ferricstore_typescript.Common.{drop, ◌==◌, leb, if_both, Bool-cases}
use ferricstore_typescript.Common.Maps.{
  or_zero, get, set, sum_values, sum_values-set, sum_values-delete,
}
use ferricstore_typescript.Native.FlowControl.{
  FlowControl, LaneQueue, Reason, get_queue, active_in, is_exhausted, activate, try_acquire,
  grant_from, grant, left_queue, put_queue, drop_queue, add_ready, drop_ready, pump, take_waiter,
  wait, join_queue, expire, shorten_queue, release, pump_unless, drop_credit, with_limits,
  update_limits, update_lane_queue_limit, cancel_waiter, cancel_waiters, cancel_queues,
  cancel_queued, close, settle, is_settled,
}
use ferricstore_typescript.Native.FlowControl.Pumping.{pump_induction}

-- The lists and numbers of credits of two states agree.
abbrev pub SameCredits : FlowControl → FlowControl → Type 0
SameCredits s t =
    (t.active_total ≡ s.active_total)
    × (t.active_by_lane ≡ s.active_by_lane)
    × (t.connection_limit ≡ s.connection_limit)
    × (t.lane_limit ≡ s.lane_limit)

same : (s : FlowControl) → SameCredits s s
same s = (refl, refl, refl, refl)

same_trans : (s t u : FlowControl) → SameCredits s t → SameCredits t u → SameCredits s u
same_trans s t u (a, b, c, d) (a1, b1, c1, d1) = (a1 ∙ a, b1 ∙ b, c1 ∙ c, d1 ∙ d)

left_queue-SameCredits :
    (lane : ℕ) (q : LaneQueue) (s : FlowControl) → SameCredits s (left_queue lane q s)
unfolding left_queue drop_queue put_queue add_ready
left_queue-SameCredits lane q s = elim (Bool-cases (q.waiting == 0)) [
  | inl e ↦ rw e (same s)
  | inr e ↦ rw e (same s)
]

shorten_queue-SameCredits :
    (lane : ℕ) (o : Option LaneQueue) (s : FlowControl) → SameCredits s (shorten_queue lane o s)
unfolding shorten_queue drop_queue drop_ready put_queue
shorten_queue-SameCredits lane none s = same s
shorten_queue-SameCredits lane (some q) s = elim (Bool-cases (q.waiting - 1 == 0)) [
  | inl e ↦ rw e (same s)
  | inr e ↦ rw e (same s)
]

join_queue-SameCredits :
    (lane w : ℕ) (o : Option LaneQueue) (s : FlowControl) → SameCredits s (join_queue lane w o s)
unfolding join_queue put_queue add_ready
join_queue-SameCredits lane w none s = same s
join_queue-SameCredits lane w (some q) s = same s

cancel_waiter-SameCredits :
    (reason : Reason) (w : ℕ) (s : FlowControl) → SameCredits s (cancel_waiter reason w s)
unfolding cancel_waiter settle
cancel_waiter-SameCredits reason w s = elim (Bool-cases (is_settled w s.settled)) [
  | inl e ↦ rw e (same s)
  | inr e ↦ rw e (same s)
]

cancel_waiters-SameCredits :
    (reason : Reason) (ws : List ℕ) (s : FlowControl) → SameCredits s (cancel_waiters reason ws s)
unfolding cancel_waiters
cancel_waiters-SameCredits reason [] s = same s
cancel_waiters-SameCredits reason (w ∷ ws) s =
    let t : FlowControl = cancel_waiter reason w s in
    same_trans s t (cancel_waiters reason ws t) (cancel_waiter-SameCredits reason w s)
      (cancel_waiters-SameCredits reason ws t)

cancel_queues-SameCredits :
    (reason : Reason) (qs : List (ℕ × LaneQueue)) (s : FlowControl)
    → SameCredits s (cancel_queues reason qs s)
unfolding cancel_queues
cancel_queues-SameCredits reason [] s = same s
cancel_queues-SameCredits reason ((lane, q) ∷ qs) s =
    let t : FlowControl = cancel_waiters reason (drop q.head q.waiters) s in
    same_trans s t (cancel_queues reason qs t)
      (cancel_waiters-SameCredits reason (drop q.head q.waiters) s)
      (cancel_queues-SameCredits reason qs t)

cancel_queued-SameCredits :
    (s : FlowControl) (reason : Reason) → SameCredits s (cancel_queued s reason)
unfolding cancel_queued
cancel_queued-SameCredits s reason = cancel_queues-SameCredits reason s.queues_by_lane s

given :
    (s : FlowControl) (lane : ℕ) (p : LaneQueue × Option ℕ)
    → SameCredits s (grant lane s p) ⊎ SameCredits (activate lane s) (grant lane s p)
unfolding grant activate drop_queue active_in
given s lane (q, none) = inl (same s)
given s lane (q, some w) =
    let (a, b, c, d) =
      left_queue-SameCredits lane (record q { waiting = q.waiting - 1 })
        (record s { queued_total = s.queued_total - 1; settled = w ∷ s.settled }) in
    inr (
      ap (λ (n : ℕ). n + 1) a,
      ap (λ (m : List (ℕ × ℕ)). set ℕ_discrete lane (or_zero (get ℕ_discrete lane m) + 1) m) b,
      c,
      d,
    )

-- A round of the pump gives no credit or one to its lane.
pub grants :
    (s : FlowControl) (lane : ℕ) (o : Option LaneQueue)
    → SameCredits s (grant_from lane s o) ⊎ SameCredits (activate lane s) (grant_from lane s o)
unfolding grant_from
grants s lane none = inl (same s)
grants s lane (some q) = given s lane (take_waiter s.settled q)

abbrev pub Counted : FlowControl → Type 0
Counted s = s.active_total ≡ sum_values s.active_by_lane

SameCredits-Counted : (s t : FlowControl) → SameCredits s t → Counted s → Counted t
SameCredits-Counted s t (a, b, _, _) c = rw (a, b) c

activate-Counted : (lane : ℕ) (s : FlowControl) → Counted s → Counted (activate lane s)
unfolding activate active_in
activate-Counted lane s c = omega (
  arith,
  sum_values-set ℕ_discrete lane (or_zero (get ℕ_discrete lane s.active_by_lane) + 1)
      s.active_by_lane,
)

grant_from-Counted :
    (s : FlowControl) (lane : ℕ) (o : Option LaneQueue) → Counted s → Counted (grant_from lane s o)
grant_from-Counted s lane o c = elim (grants s lane o) [
  | inl h ↦ SameCredits-Counted s (grant_from lane s o) h c
  | inr h ↦
      SameCredits-Counted (activate lane s) (grant_from lane s o) h (activate-Counted lane s c)
]

pump-Counted : (s : FlowControl) → Counted s → Counted (pump s)
pump-Counted s c =
    (pump_induction Counted (λ s r c. c)
      (λ s lane c lt free. grant_from-Counted s lane (get_queue lane s) c) s c).0

drop_credit-Counted :
    (lane : ℕ) (s : FlowControl)
    → Counted s
    → (active_in lane s == 0) ≡ false
    → Counted (drop_credit lane (active_in lane s) s)
unfolding drop_credit active_in
drop_credit-Counted lane s c e =
    let n : ℕ = or_zero (get ℕ_discrete lane s.active_by_lane) in
    elim (Bool-cases (n == 1)) [
      | inl f ↦ rw f (ground (arith, sum_values-delete ℕ_discrete lane s.active_by_lane))
      | inr f ↦ rw f (ground (arith, sum_values-set ℕ_discrete lane (n - 1) s.active_by_lane))
    ]

pump_unless-Counted : (b : Bool) (s : FlowControl) → Counted s → Counted (pump_unless b s)
unfolding pump_unless
pump_unless-Counted true s c = c
pump_unless-Counted false s c = pump-Counted s c

release-Counted : (s : FlowControl) (lane : ℕ) → Counted s → Counted (release s lane)
unfolding release
release-Counted s lane c = elim (Bool-cases (active_in lane s == 0)) [
  | inl e ↦ rw e c
  | inr e ↦ rw e (
      let d : FlowControl = drop_credit lane (active_in lane s) s in
      pump_unless-Counted d.is_closed d (drop_credit-Counted lane s c e))
]

-- The calls of the class's methods; `expire` is a waiter's timer.
pub data Call : Type 0 where
  try_acquire_call wait_call release_call update_lane_queue_limit_call : ℕ → Call
  expire_call : ℕ → ℕ → Call
  update_limits_call : Option ℕ → Option ℕ → Call
  cancel_call : Reason → Call
  close_call : Call

abbrev pub step : Call → FlowControl → FlowControl
step (try_acquire_call lane) s = (try_acquire s lane).0
step (wait_call lane) s = (wait s lane).0
step (expire_call lane w) s = expire s lane w
step (release_call lane) s = release s lane
step (update_limits_call c l) s = update_limits s c l
step (update_lane_queue_limit_call n) s = update_lane_queue_limit s n
step (cancel_call reason) s = cancel_queued s reason
step close_call s = close s

abbrev pub run : List Call → FlowControl → FlowControl
run [] s = s
run (c ∷ cs) s = run cs (step c s)

try_acquire-Counted : (s : FlowControl) (lane : ℕ) → Counted s → Counted (try_acquire s lane).0
unfolding try_acquire
try_acquire-Counted s lane c = elim (Bool-cases (is_exhausted lane s)) [
  | inl e ↦ rw e c
  | inr e ↦ rw e (activate-Counted lane s c)
]

wait-SameCredits : (s : FlowControl) (lane : ℕ) → SameCredits s (wait s lane).0
unfolding wait
wait-SameCredits s lane =
    let P : FlowControl × (ℕ ⊎ Reason) → Type 0 = λ r. SameCredits s r.0 in
    if_both P s.is_closed _ _ (same s) (
      if_both P (s.lane_queue_limit == 0) _ _ (same s) (
        if_both P (leb s.max_queued_requests s.queued_total) _ _ (same s)
          (join_queue-SameCredits lane s.next_waiter (get_queue lane s) s)))

expire-SameCredits : (s : FlowControl) (lane w : ℕ) → SameCredits s (expire s lane w)
unfolding expire
expire-SameCredits s lane w = elim (Bool-cases (is_settled w s.settled)) [
  | inl e ↦ rw e (same s)
  | inr e ↦ rw e (
      let s1 : FlowControl = record s {
        settled = w ∷ s.settled;
        queued_total = s.queued_total - 1;
      } in
      shorten_queue-SameCredits lane (get_queue lane s1) s1)
]

close-SameCredits : (s : FlowControl) → SameCredits s (close s)
unfolding close
close-SameCredits s =
    if_both (SameCredits s) s.is_closed _ _ (same s)
      (cancel_queued-SameCredits (record s { is_closed = true }) Reason.closed)

with_limits-Counted :
    (s : FlowControl) (c w q : ℕ) → Counted s → Counted (pump (with_limits s c w q))
unfolding with_limits
with_limits-Counted s c w q h = pump-Counted (with_limits s c w q) h

step-Counted : (c : Call) (s : FlowControl) → Counted s → Counted (step c s)
unfolding update_limits update_lane_queue_limit
step-Counted (try_acquire_call lane) s c = try_acquire-Counted s lane c
step-Counted (wait_call lane) s c =
    SameCredits-Counted s (wait s lane).0 (wait-SameCredits s lane) c
step-Counted (expire_call lane w) s c =
    SameCredits-Counted s (expire s lane w) (expire-SameCredits s lane w) c
step-Counted (release_call lane) s c = release-Counted s lane c
step-Counted (update_limits_call m l) s c = with_limits-Counted s _ _ _ c
step-Counted (update_lane_queue_limit_call n) s c = with_limits-Counted s _ _ _ c
step-Counted (cancel_call reason) s c =
    SameCredits-Counted s (cancel_queued s reason) (cancel_queued-SameCredits s reason) c
step-Counted close_call s c = SameCredits-Counted s (close s) (close-SameCredits s) c

-- Whatever calls are made on a state whose total of active requests is the sum over its lanes, as
-- the first state's is, the total stays that sum.
pub run-Counted : (calls : List Call) (s : FlowControl) → Counted s → Counted (run calls s)
run-Counted [] s c = c
run-Counted (call ∷ calls) s c = run-Counted calls (step call s) (step-Counted call s c)
