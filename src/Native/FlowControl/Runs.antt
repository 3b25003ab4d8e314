-- ===== src/Native/FlowControl/Runs.antt =====
-- Concrete runs of the flow control, and its theorems at concrete inputs.
use mathlib.Core.Path.{◌≡◌, refl}
use mathlib.Core.Option.{none, some}
use mathlib.Core.List.{List, [], ◌∷◌}
use ferricstore_typescript.Native.FlowControl.{
  FlowControl, LaneQueue, init, pump, take_waiter, compact_waiters,
}
use ferricstore_typescript.Native.FlowControl.Accounts.{Call, Counted, run, run-Counted}
use ferricstore_typescript.Native.FlowControl.Limits.{Within, pump_stops-Within}
use ferricstore_typescript.Native.FlowControl.Pumping.{Stopped}
use ferricstore_typescript.Native.FlowControl.Queues.{Takes, pending, take_waiter_oldest}

-- One credit; two waiters of lane 3, the first of which times out; the credit goes to the second.
abbrev calls : List Call
calls =
    Call.update_limits_call (some 1) none
    ∷ Call.try_acquire_call 3
    ∷ Call.wait_call 3
    ∷ Call.wait_call 3
    ∷ Call.expire_call 3 0
    ∷ Call.release_call 3
    ∷ []

run-Counted_example : Counted (run calls (init 10))
run-Counted_example = run-Counted calls (init 10) refl

abbrev waiting : FlowControl
waiting = run (Call.update_limits_call (some 1) none ∷ Call.wait_call 3 ∷ []) (init 10)

pump_stops-Within_example : Within waiting (pump waiting) × Stopped (pump waiting)
pump_stops-Within_example = pump_stops-Within waiting

abbrev queue : LaneQueue
queue = record { head = 1; waiting = 2; waiters = 4 ∷ 5 ∷ 6 ∷ 7 ∷ [] }

take_waiter_oldest_example :
    Takes (5 ∷ []) queue (take_waiter (5 ∷ []) (compact_waiters (5 ∷ []) queue))
    × (pending (5 ∷ []) (compact_waiters (5 ∷ []) queue) ≡ pending (5 ∷ []) queue)
take_waiter_oldest_example = take_waiter_oldest (5 ∷ []) queue
