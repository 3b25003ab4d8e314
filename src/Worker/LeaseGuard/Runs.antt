-- ===== src/Worker/LeaseGuard/Runs.antt =====
-- A guard that renews a lease, is paused, and is stopped.
use ferricstore_typescript.Common.{◌≡◌, refl, true, none, some, [], ◌∷◌, length}
use native.Mathlib.Decide.{ℕ_discrete}
use ferricstore_typescript.Common.Results.{err}
use ferricstore_typescript.Worker.LeaseGuard.{
  LeasedJob, Guard, guard_is_stopped, lease_renewal, stopped, new_guard, start_renewal,
  positive_integer, stop, cancel_renewal, renew, settle_renewal, pause_for_lease_mutation,
  assert_active,
}
use ferricstore_typescript.Worker.LeaseGuard.Steps.{Step, ticks, settles, here, then_on, Sound}
use ferricstore_typescript.Worker.LeaseGuard.Renewing.{
  Sends, new_guard-Sound, Step-Sends, stopped_for_good,
}

abbrev job : LeasedJob
job = record {
  fencing_token = 4;
  id = 106 ∷ [];
  lease_token = 1 ∷ 2 ∷ [];
  partition_key = none;
  run_state = none;
  job_state = 99 ∷ [];
  job_type = 116 ∷ [];
  wire = none;
}

abbrev fresh : Guard
fresh = new_guard job 30000 true none

-- Half of the lease.
interval_of_fresh : fresh.interval_ms ≡ 15000
unfolding new_guard start_renewal positive_integer
interval_of_fresh = refl

ticked : Step fresh (renew fresh)
unfolding new_guard start_renewal ℕ_discrete
ticked = ticks fresh 0 refl

abbrev failed_guard : Guard
failed_guard = settle_renewal (some 7) (renew fresh)

-- A failed renewal stops the interval, and is told to the worker.
told : (assert_active failed_guard ≡ err (lease_renewal 7)) × (failed_guard.running ≡ [])
unfolding new_guard start_renewal renew settle_renewal cancel_renewal assert_active ℕ_discrete
told = (refl, refl)

-- A second tick sends nothing while the first renewal is in flight.
sent_once : length (renew (renew fresh)).requests ≡ 1
unfolding new_guard start_renewal renew
sent_once = refl

refused_pause : pause_for_lease_mutation (stop fresh) ≡ err guard_is_stopped
unfolding new_guard start_renewal pause_for_lease_mutation stop cancel_renewal
refused_pause = refl

new_guard-Sound_example : Sound (renew fresh)
new_guard-Sound_example =
    new_guard-Sound job 30000 true none (renew fresh)
      (then_on fresh (renew fresh) (renew fresh) ticked (here (renew fresh)))

Step-Sends_example : Sends fresh (renew fresh)
Step-Sends_example = Step-Sends fresh (renew fresh) ticked

stop_is_stopped : (stop (renew fresh)).phase ≡ stopped
unfolding new_guard start_renewal renew stop cancel_renewal
stop_is_stopped = refl

abbrev late : Guard
late = settle_renewal none (stop (renew fresh))

stopped_for_good_example : (late.phase ≡ stopped) × (late.requests ≡ (stop (renew fresh)).requests)
stopped_for_good_example =
    stopped_for_good (stop (renew fresh)) late
      (then_on (stop (renew fresh)) late late (settles (stop (renew fresh)) none) (here late))
      stop_is_stopped
