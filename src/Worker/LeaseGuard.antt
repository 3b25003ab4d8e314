-- ===== src/Worker/LeaseGuard.antt =====
-- `LeaseRenewalGuard` of src/worker-lease-guard.ts. An interval is its number; `running` lists the
-- intervals that have been set and not cancelled, and `requests` the calls of `extendLease`, whose
-- number is their place there. What comes after an `await` of the renewal in flight is
-- `assert_active`, once that renewal has settled.
pub mod Steps
pub mod Renewing
pub mod Runs
use ferricstore_typescript.Common.{
  ℕ, ◌+◌, ◌/◌, max, Bool, true, false, ◌&&◌, ◌||◌, not, Option, none, some, List, [], ◌∷◌, ◌++◌,
  ◌==◌, if◌then◌else◌, length,
}
use native.Mathlib.Decide.{ℕ_discrete}
use ferricstore_typescript.Common.Words.{ℤ, pos, negsuc}
use ferricstore_typescript.Common.Results.{Result, ok, err}
use ferricstore_typescript.Common.Maps.{remove}

-- The wire form that a claimed item may carry.
pub record Wire : Type 0 where
  pub fields : List ℕ
  pub wire_lease_token : List ℕ

pub record LeasedJob : Type 0 where
  pub fencing_token : ℕ
  pub id : List ℕ
  pub lease_token : List ℕ
  pub partition_key : Option (List ℕ)
  pub run_state : Option (List ℕ)
  pub job_state : List ℕ
  pub job_type : List ℕ
  pub wire : Option Wire

abbrev pub wire_with : List ℕ → Option Wire → Option Wire
wire_with token none = none
wire_with token (some w) = some (record w { wire_lease_token = token })

-- A copy, whose wire form has the copied token.
unfoldable pub snapshot_leased_job : LeasedJob → LeasedJob
snapshot_leased_job job = record job { wire = wire_with job.lease_token job.wire }

pub data Phase : Type 0 where
  active paused stopped : Phase

pub data GuardError : Type 0 where
  guard_is_stopped guard_is_not_paused : GuardError
  lease_renewal : ℕ → GuardError

pub record Extension : Type 0 where
  pub job_id : List ℕ
  pub fencing_token : ℕ
  pub lease_ms : ℕ
  pub lease_token : List ℕ
  pub partition_key : Option (List ℕ)

pub record Guard : Type 0 where
  pub failure : Option ℕ
  pub in_flight : Option ℕ
  pub current_job : LeasedJob
  pub lease_ms : ℕ
  pub interval_ms : ℕ
  pub renewal_enabled : Bool
  pub phase : Phase
  pub timer : Option ℕ
  pub running : List ℕ
  pub next_timer : ℕ
  pub requests : List Extension

-- An option that is missing or not finite is none.
unfoldable pub positive_integer : Option ℤ → ℕ → ℕ
positive_integer none fallback = fallback
positive_integer (some (pos n)) fallback = max 1 n
positive_integer (some (negsuc n)) fallback = 1

abbrev pub is_active : Phase → Bool
is_active active = true
is_active paused = false
is_active stopped = false

abbrev pub is_missing : Option ℕ → Bool
is_missing none = true
is_missing (some n) = false

abbrev pub without_timer : Option ℕ → Guard → Guard
without_timer none s = s
without_timer (some t) s = record s { timer = none; running = remove ℕ_discrete t s.running }

unfoldable pub cancel_renewal : Guard → Guard
cancel_renewal s = without_timer s.timer s

unfoldable pub start_renewal : Guard → Guard
start_renewal s = if not s.renewal_enabled || not (is_active s.phase) then s else record s {
  timer = some s.next_timer;
  running = s.running ++ (s.next_timer ∷ []);
  next_timer = s.next_timer + 1;
}

unfoldable pub new_guard : LeasedJob → ℕ → Bool → Option ℤ → Guard
new_guard job lease_ms renewal_enabled interval = start_renewal (record {
  failure = none;
  in_flight = none;
  current_job = snapshot_leased_job job;
  lease_ms = lease_ms;
  interval_ms = positive_integer interval (max 1 (lease_ms / 2));
  renewal_enabled = renewal_enabled;
  phase = active;
  timer = none;
  running = [];
  next_timer = 0;
  requests = [];
})

abbrev pub assert_none : Option ℕ → Result GuardError (Unit {0})
assert_none none = ok tt
assert_none (some cause) = err (lease_renewal cause)

unfoldable pub assert_active : Guard → Result GuardError (Unit {0})
assert_active s = assert_none s.failure

-- `stop`, up to its `await`.
unfoldable pub stop : Guard → Guard
stop s = cancel_renewal (record s { phase = stopped })

-- `pauseForLeaseMutation`, up to its `await`; a guard that is paused is left as it is.
abbrev pub pause_from : Phase → Guard → Result GuardError Guard
pause_from active s = ok (cancel_renewal (record s { phase = paused }))
pause_from paused s = ok s
pause_from stopped s = err guard_is_stopped

unfoldable pub pause_for_lease_mutation : Guard → Result GuardError Guard
pause_for_lease_mutation s = pause_from s.phase s

abbrev pub resume_from : Phase → LeasedJob → Guard → Result GuardError Guard
resume_from paused job s =
    ok (start_renewal (record s { current_job = snapshot_leased_job job; phase = active }))
resume_from active job s = err guard_is_not_paused
resume_from stopped job s = err guard_is_not_paused

unfoldable pub resume_with : LeasedJob → Guard → Result GuardError Guard
resume_with job s = resume_from s.phase job s

abbrev pub extension_of : Guard → Extension
extension_of s = record {
  job_id = s.current_job.id;
  fencing_token = s.current_job.fencing_token;
  lease_ms = s.lease_ms;
  lease_token = s.current_job.lease_token;
  partition_key = s.current_job.partition_key;
}

unfoldable pub renew : Guard → Guard
renew s =
    if not (is_active s.phase) || not (is_missing s.failure) || not (is_missing s.in_flight)
    then s
    else record s {
      requests = s.requests ++ (extension_of s ∷ []);
      in_flight = some (length s.requests);
    }

-- What `then` and `finally` do with a renewal, which has succeeded or failed for a cause.
unfoldable pub settle_renewal : Option ℕ → Guard → Guard
settle_renewal none s = s
settle_renewal (some cause) s = cancel_renewal (record s { failure = some cause })

abbrev pub is_renewal : ℕ → Option ℕ → Bool
is_renewal n none = false
is_renewal n (some m) = m == n

unfoldable pub finish_renewal : ℕ → Guard → Guard
finish_renewal n s = if is_renewal n s.in_flight then record s { in_flight = none } else s
