-- ===== src/Native/FlowControl.antt =====
-- `NativeFlowControl` of src/native-flow-control.ts: request credits for each connection and lane,
-- with a queue of waiters for each lane. A waiter is its number; `settled` lists the waiters whose
-- flag is set. `outcomes` collects the calls of `resolve` and `reject`, oldest first.
pub mod Accounts
pub mod Limits
pub mod Queues
pub mod Pumping
pub mod Runs
use Prim.Native.Nat.{ℕ, zero, suc, ◌+◌, ◌-◌, ◌*◌, ◌^◌, min}
use mathlib.Core.Logic.{◌⊎◌, inl, inr}
use mathlib.Core.Bool.{Bool, true, false, not, ◌&&◌, ◌||◌}
use mathlib.Core.Option.{Option, none, some}
use mathlib.Core.List.{List, [], ◌∷◌, ◌++◌}
use native.Mathlib.Decide.{ℕ_discrete}
use ferricstore_typescript.Common.{length, get_elem?, drop, ltb, leb, ◌==◌, if◌then◌else◌}
use ferricstore_typescript.Common.Maps.{or_zero, get, set, delete, has, add, remove}

abbrev default_max_inflight_per_connection : ℕ
default_max_inflight_per_connection = 4096

abbrev default_max_inflight_per_lane : ℕ
default_max_inflight_per_lane = 1024

abbrev waiter_compaction_threshold : ℕ
waiter_compaction_threshold = 1024

abbrev max_safe_integer : ℕ
max_safe_integer = 2 ^ 53 - 1

pub record LaneQueue : Type 0 where
  pub head : ℕ
  pub waiting : ℕ
  pub waiters : List ℕ

pub data Reason : Type 0 where
  closed lane_queue_disabled queue_full timed_out : Reason

pub data Outcome : Type 0 where
  resolved : ℕ → Outcome
  rejected : ℕ → Reason → Outcome

pub record FlowControl : Type 0 where
  pub active_total : ℕ
  pub active_by_lane : List (ℕ × ℕ)
  pub is_closed : Bool
  pub connection_limit : ℕ
  pub lane_queue_limit : ℕ
  pub lane_limit : ℕ
  pub lane_window_limit : ℕ
  pub queues_by_lane : List (ℕ × LaneQueue)
  pub ready_lanes : List ℕ
  pub queued_total : ℕ
  pub max_queued_requests : ℕ
  pub next_waiter : ℕ
  pub settled : List ℕ
  pub outcomes : List Outcome

abbrev pub init : ℕ → FlowControl
init max_queued = record {
  active_total = 0;
  active_by_lane = [];
  is_closed = false;
  connection_limit = default_max_inflight_per_connection;
  lane_queue_limit = max_safe_integer;
  lane_limit = default_max_inflight_per_lane;
  lane_window_limit = default_max_inflight_per_lane;
  queues_by_lane = [];
  ready_lanes = [];
  queued_total = 0;
  max_queued_requests = max_queued;
  next_waiter = 0;
  settled = [];
  outcomes = [];
}

unfoldable pub get_queue : ℕ → FlowControl → Option LaneQueue
get_queue lane s = get ℕ_discrete lane s.queues_by_lane

unfoldable pub active_in : ℕ → FlowControl → ℕ
active_in lane s = or_zero (get ℕ_discrete lane s.active_by_lane)

unfoldable pub is_settled : ℕ → List ℕ → Bool
is_settled waiter settled = has ℕ_discrete waiter settled

unfoldable pub activate : ℕ → FlowControl → FlowControl
unfolding active_in
activate lane s = record s {
  active_total = s.active_total + 1;
  active_by_lane = set ℕ_discrete lane (active_in lane s + 1) s.active_by_lane;
}

unfoldable pub is_exhausted : ℕ → FlowControl → Bool
is_exhausted lane s =
    s.is_closed || leb s.connection_limit s.active_total || leb s.lane_limit (active_in lane s)

pub try_acquire : FlowControl → ℕ → FlowControl × Bool
try_acquire s lane = if is_exhausted lane s then (s, false) else (activate lane s, true)

-- The waiters that are left in a list of them.
unfoldable pub unsettled : List ℕ → List ℕ → List ℕ
unsettled settled [] = []
unsettled settled (w ∷ ws) =
    if is_settled w settled then unsettled settled ws else w ∷ unsettled settled ws

unfoldable pub needs_compaction : LaneQueue → Bool
needs_compaction q =
    let remaining_slots = length q.waiters - q.head in
    let tombstones = remaining_slots - q.waiting in
    let compact_consumed =
      leb waiter_compaction_threshold q.head && leb (length q.waiters) (q.head * 2) in
    let compact_tombstones =
      leb waiter_compaction_threshold tombstones && leb remaining_slots (tombstones * 2) in
    compact_consumed || compact_tombstones

unfoldable pub compact_waiters : List ℕ → LaneQueue → LaneQueue
compact_waiters settled q =
    if needs_compaction q
    then record q { head = 0; waiters = unsettled settled (drop q.head q.waiters) }
    else q

unfoldable pub next_slot : LaneQueue → LaneQueue
next_slot q = record q { head = q.head + 1 }

-- One round: the slot that was read, and what is done when its waiter is settled.
unfoldable pub take_slot :
    List ℕ → LaneQueue → Option ℕ → LaneQueue × Option ℕ → LaneQueue × Option ℕ
take_slot settled q none rest = (q, none)
take_slot settled q (some w) rest = if is_settled w settled then rest else (next_slot q, some w)

-- The first argument bounds the rounds.
unfoldable pub take_loop : ℕ → List ℕ → LaneQueue → LaneQueue × Option ℕ
take_loop zero settled q = (q, none)
take_loop (suc n) settled q =
    let rest = take_loop n settled (next_slot q) in
    take_slot settled q (get_elem? q.waiters q.head) rest

unfoldable pub take_waiter : List ℕ → LaneQueue → LaneQueue × Option ℕ
take_waiter settled q = take_loop (length q.waiters) settled q

unfoldable pub has_waiting : Option LaneQueue → Bool
has_waiting none = false
has_waiting (some q) = not (q.waiting == 0)

unfoldable pub drop_ready : ℕ → FlowControl → FlowControl
drop_ready lane s = record s { ready_lanes = remove ℕ_discrete lane s.ready_lanes }

unfoldable pub add_ready : ℕ → FlowControl → FlowControl
add_ready lane s = record s { ready_lanes = add ℕ_discrete lane s.ready_lanes }

unfoldable pub first_of : List ℕ → Option ℕ
first_of [] = none
first_of (x ∷ xs) = some x

-- One attempt on the oldest ready lane; `go` is the attempts that are left.
unfoldable pub attempt :
    (FlowControl → FlowControl × Option ℕ) → FlowControl → Option ℕ → FlowControl × Option ℕ
attempt go s none = (s, none)
attempt go s (some lane) =
    let s1 = drop_ready lane s in
    if not (has_waiting (get_queue lane s1))
    then go s1
    else if ltb (active_in lane s1) s1.lane_limit
    then (s1, some lane)
    else go (add_ready lane s1)

unfoldable pub attempts : ℕ → FlowControl → FlowControl × Option ℕ
attempts zero s = (s, none)
attempts (suc n) s = attempt (attempts n) s (first_of s.ready_lanes)

unfoldable pub next_grantable_lane : FlowControl → FlowControl × Option ℕ
next_grantable_lane s = attempts (length s.ready_lanes) s

unfoldable pub put_queue : ℕ → LaneQueue → FlowControl → FlowControl
put_queue lane q s = record s { queues_by_lane = set ℕ_discrete lane q s.queues_by_lane }

unfoldable pub drop_queue : ℕ → FlowControl → FlowControl
drop_queue lane s = record s { queues_by_lane = delete ℕ_discrete lane s.queues_by_lane }

-- The queue after one of its waiters has left it.
unfoldable pub left_queue : ℕ → LaneQueue → FlowControl → FlowControl
left_queue lane q s =
    if q.waiting == 0
    then drop_queue lane s
    else add_ready lane (put_queue lane (compact_waiters s.settled q) s)

unfoldable pub settle : ℕ → Outcome → FlowControl → FlowControl
settle w o s = record s { settled = w ∷ s.settled; outcomes = s.outcomes ++ (o ∷ []) }

-- A queue on a ready lane gives its oldest waiter a credit.
unfoldable pub grant : ℕ → FlowControl → LaneQueue × Option ℕ → FlowControl
grant lane s (q, none) = drop_queue lane s
grant lane s (q, some w) =
    let s1 = record s { queued_total = s.queued_total - 1; settled = w ∷ s.settled } in
    let s2 = left_queue lane (record q { waiting = q.waiting - 1 }) s1 in
    let s3 = activate lane s2 in record s3 { outcomes = s3.outcomes ++ (resolved w ∷ []) }

unfoldable pub grant_from : ℕ → FlowControl → Option LaneQueue → FlowControl
grant_from lane s none = s
grant_from lane s (some q) = grant lane s (take_waiter s.settled q)

unfoldable pub may_pump : FlowControl → Bool
may_pump s =
    not s.is_closed && ltb s.active_total s.connection_limit && not (length s.ready_lanes == 0)

unfoldable pub pump_round : (FlowControl → FlowControl) → FlowControl × Option ℕ → FlowControl
pump_round go (s, none) = s
pump_round go (s, some lane) = go (grant_from lane s (get_queue lane s))

-- The first argument bounds the rounds.
unfoldable pub pump_loop : ℕ → FlowControl → FlowControl
pump_loop zero s = s
pump_loop (suc n) s = elim (may_pump s) [
  | true ↦ pump_round (pump_loop n) (next_grantable_lane s)
  | false ↦ s
]

-- A round gives a credit away or takes a lane out of the ready ones.
unfoldable pub pump_rounds : FlowControl → ℕ
pump_rounds s = (s.connection_limit - s.active_total) + length s.ready_lanes

unfoldable pub pump : FlowControl → FlowControl
pump s = pump_loop (pump_rounds s) s

unfoldable pub join_queue : ℕ → ℕ → Option LaneQueue → FlowControl → FlowControl
join_queue lane w none s =
    add_ready lane (put_queue lane (record { head = 0; waiting = 1; waiters = w ∷ [] }) s)
join_queue lane w (some q) s =
    put_queue lane (record q { waiting = q.waiting + 1; waiters = q.waiters ++ (w ∷ []) }) s

-- The promise's waiter, or the error it is rejected with at once.
pub wait : FlowControl → ℕ → FlowControl × (ℕ ⊎ Reason)
wait s lane =
    if s.is_closed
    then (s, inr closed)
    else if s.lane_queue_limit == 0
    then (s, inr lane_queue_disabled)
    else if leb s.max_queued_requests s.queued_total
    then (s, inr queue_full)
    else let w = s.next_waiter in
      let s1 = join_queue lane w (get_queue lane s) s in
      (record s1 { queued_total = s1.queued_total + 1; next_waiter = w + 1 }, inl w)

unfoldable pub shorten_queue : ℕ → Option LaneQueue → FlowControl → FlowControl
shorten_queue lane none s = s
shorten_queue lane (some q) s =
    let q1 = record q { waiting = q.waiting - 1 } in
    if q1.waiting == 0
    then drop_ready lane (drop_queue lane s)
    else put_queue lane (compact_waiters s.settled q1) s

-- The timer of a waiter on a lane.
pub expire : FlowControl → ℕ → ℕ → FlowControl
expire s lane w =
    if is_settled w s.settled
    then s
    else let s1 = record s { settled = w ∷ s.settled; queued_total = s.queued_total - 1 } in
      let s2 = shorten_queue lane (get_queue lane s1) s1 in
      record s2 { outcomes = s2.outcomes ++ (rejected w timed_out ∷ []) }

unfoldable pub drop_credit : ℕ → ℕ → FlowControl → FlowControl
drop_credit lane active s = record s {
  active_total = s.active_total - 1;
  active_by_lane =
      if active == 1
      then delete ℕ_discrete lane s.active_by_lane
      else set ℕ_discrete lane (active - 1) s.active_by_lane;
}

unfoldable pub pump_unless : Bool → FlowControl → FlowControl
pump_unless true s = s
pump_unless false s = pump s

pub release : FlowControl → ℕ → FlowControl
release s lane =
    let active = active_in lane s in
    if active == 0 then s else let s1 = drop_credit lane active s in pump_unless s1.is_closed s1

unfoldable pub or_keep : Option ℕ → ℕ → ℕ
or_keep none old = old
or_keep (some new) old = new

unfoldable pub with_limits : FlowControl → ℕ → ℕ → ℕ → FlowControl
with_limits s connection window queue = record s {
  connection_limit = connection;
  lane_window_limit = window;
  lane_queue_limit = queue;
  lane_limit = min window queue;
}

pub update_limits : FlowControl → Option ℕ → Option ℕ → FlowControl
update_limits s connection_limit lane_limit = pump (
    with_limits s (or_keep connection_limit s.connection_limit)
      (or_keep lane_limit s.lane_window_limit) s.lane_queue_limit)

pub update_lane_queue_limit : FlowControl → ℕ → FlowControl
update_lane_queue_limit s limit = pump (with_limits s s.connection_limit s.lane_window_limit limit)

unfoldable pub cancel_waiter : Reason → ℕ → FlowControl → FlowControl
cancel_waiter reason w s = if is_settled w s.settled then s else settle w (rejected w reason) s

unfoldable pub cancel_waiters : Reason → List ℕ → FlowControl → FlowControl
cancel_waiters reason [] s = s
cancel_waiters reason (w ∷ ws) s = cancel_waiters reason ws (cancel_waiter reason w s)

unfoldable pub cancel_queues : Reason → List (ℕ × LaneQueue) → FlowControl → FlowControl
cancel_queues reason [] s = s
cancel_queues reason ((lane, q) ∷ qs) s =
    cancel_queues reason qs (cancel_waiters reason (drop q.head q.waiters) s)

pub cancel_queued : FlowControl → Reason → FlowControl
cancel_queued s reason = record (cancel_queues reason s.queues_by_lane s) {
  queues_by_lane = [];
  ready_lanes = [];
  queued_total = 0;
}

pub close : FlowControl → FlowControl
close s = if s.is_closed then s else cancel_queued (record s { is_closed = true }) closed
