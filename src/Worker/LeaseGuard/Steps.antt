-- ===== src/Worker/LeaseGuard/Steps.antt =====
-- The guard as a machine: what its calls, its interval and its renewals do to it.
use ferricstore_typescript.Common.{
  ℕ, ◌+◌, ◌≡◌, ◌≢◌, refl, sym, ap, ◌∙◌, subst, Bool, true, false, ◌||◌, not, if_cases, true_of_not,
  Option, none, some, List, [], ◌∷◌, ◌++◌, length, length-append, arith,
}
use mathlib.Core.Option.{some-injective}
use native.Mathlib.Decide.{ℕ_discrete}
use ferricstore_typescript.Common.Results.{ok}
use ferricstore_typescript.Common.Maps.{has, remove, remove_head}
use ferricstore_typescript.Worker.LeaseGuard.{
  LeasedJob, Phase, active, paused, stopped, Guard, is_active, is_missing, without_timer,
  cancel_renewal, start_renewal, stop, pause_from, pause_for_lease_mutation, resume_from,
  resume_with, extension_of, renew, settle_renewal, is_renewal, finish_renewal, snapshot_leased_job,
}

pub data Step : Guard → Guard → Type 0 where
  ticks : (s : Guard) (t : ℕ) → has ℕ_discrete t s.running ≡ true → Step s (renew s)
  stops : (s : Guard) → Step s (stop s)
  pauses : (s s1 : Guard) → pause_for_lease_mutation s ≡ ok s1 → Step s s1
  resumes : (s s1 : Guard) (job : LeasedJob) → resume_with job s ≡ ok s1 → Step s s1
  settles : (s : Guard) (cause : Option ℕ) → Step s (settle_renewal cause s)
  finishes : (s : Guard) (n : ℕ) → Step s (finish_renewal n s)

pub data Steps : Guard → Guard → Type 0 where
  here : (s : Guard) → Steps s s
  then_on : (s s1 s2 : Guard) → Step s s1 → Steps s1 s2 → Steps s s2

-- The intervals that run are the guard's own.
abbrev pub timers_of : Option ℕ → List ℕ
timers_of none = []
timers_of (some t) = t ∷ []

pub record Sound (s : Guard) : Type 0 where
  pub running_eq : s.running ≡ timers_of s.timer
  pub quiet : s.phase ≢ active → s.timer ≡ none
  pub last_request : (n : ℕ) → s.in_flight ≡ some n → n + 1 ≡ length s.requests

pub without_timer_same :
    (o : Option ℕ) (s : Guard)
    → let s1 = without_timer o s in
      (s1.phase ≡ s.phase) × (s1.requests ≡ s.requests) × (s1.in_flight ≡ s.in_flight)
without_timer_same none s = (refl, refl, refl)
without_timer_same (some t) s = (refl, refl, refl)

without_timer-Sound :
    (o : Option ℕ) (s : Guard)
    → s.timer ≡ o
    → s.running ≡ timers_of o
    → ((n : ℕ) → s.in_flight ≡ some n → n + 1 ≡ length s.requests)
    → Sound (without_timer o s)
without_timer-Sound none s e h last = record {
  running_eq = h ∙ sym (ap timers_of e);
  quiet = λ p. e;
  last_request = last;
}
without_timer-Sound (some t) s e h last = record {
  running_eq = ap (remove ℕ_discrete t) h ∙ remove_head ℕ_discrete t [];
  quiet = λ p. refl;
  last_request = last;
}

pub is_active-active : (p : Phase) → is_active p ≡ true → p ≡ active
is_active-active active h = refl
is_active-active paused h = cc
is_active-active stopped h = cc

pub or_false : (a b : Bool) → (not a || not b) ≡ false → (a ≡ true) × (b ≡ true)
or_false true b h = (refl, true_of_not b h)
or_false false b h = cc

pub start_renewal-Sound :
    (s : Guard)
    → s.timer ≡ none
    → s.running ≡ []
    → ((n : ℕ) → s.in_flight ≡ some n → n + 1 ≡ length s.requests)
    → Sound (start_renewal s)
unfolding start_renewal
start_renewal-Sound s e h last =
    if_cases Sound (not s.renewal_enabled || not (is_active s.phase)) s _
      (λ b. record { running_eq = h ∙ sym (ap timers_of e); quiet = λ p. e; last_request = last })
      (λ b. record {
        running_eq = ap (λ ts. ts ++ (s.next_timer ∷ [])) h;
        quiet = λ p.
            absurd
              (p (is_active-active s.phase (or_false s.renewal_enabled (is_active s.phase) b).1));
        last_request = last;
      })

renew-Sound : (s : Guard) → Sound s → Sound (renew s)
unfolding renew
renew-Sound s w =
    if_cases Sound
      (not (is_active s.phase) || not (is_missing s.failure) || not (is_missing s.in_flight)) s _
      (λ b. w)
      (λ b. record {
        running_eq = w.running_eq;
        quiet = w.quiet;
        last_request = λ n e. omega (
          arith,
          some-injective (length s.requests) n e,
          length-append s.requests (extension_of s ∷ []),
        );
      })

paused-Sound : (p : Phase) (s s1 : Guard) → pause_from p s ≡ ok s1 → Sound s → Sound s1
unfolding cancel_renewal
paused-Sound active s s1 h w =
    let e : cancel_renewal (record s { phase = paused }) ≡ s1 = cc in
    subst Sound e
      (without_timer-Sound s.timer (record s { phase = paused }) refl w.running_eq w.last_request)
paused-Sound paused s s1 h w = let e : s ≡ s1 = cc in subst Sound e w
paused-Sound stopped s s1 h w = cc

resumed-Sound :
    (p : Phase) (job : LeasedJob) (s s1 : Guard)
    → s.phase ≡ p
    → resume_from p job s ≡ ok s1
    → Sound s
    → Sound s1
resumed-Sound paused job s s1 e h w =
    let s0 = record s { current_job = snapshot_leased_job job; phase = active } in
    let g : start_renewal s0 ≡ s1 = cc in
    let off : s.timer ≡ none = w.quiet (λ a. cc) in
    subst Sound g (start_renewal-Sound s0 off (w.running_eq ∙ ap timers_of off) w.last_request)
resumed-Sound active job s s1 e h w = cc
resumed-Sound stopped job s s1 e h w = cc

finish_renewal-Sound : (n : ℕ) (s : Guard) → Sound s → Sound (finish_renewal n s)
unfolding finish_renewal
finish_renewal-Sound n s w =
    if_cases Sound (is_renewal n s.in_flight) _ s
      (λ b. record { running_eq = w.running_eq; quiet = w.quiet; last_request = λ m e. cc })
      (λ b. w)

settle_renewal-Sound : (cause : Option ℕ) (s : Guard) → Sound s → Sound (settle_renewal cause s)
unfolding settle_renewal cancel_renewal
settle_renewal-Sound none s w = w
settle_renewal-Sound (some cause) s w =
    without_timer-Sound s.timer (record s { failure = some cause }) refl w.running_eq w.last_request

pub Step-Sound : (s s1 : Guard) → Step s s1 → Sound s → Sound s1
unfolding stop cancel_renewal pause_for_lease_mutation resume_with
Step-Sound _ _ (ticks s t h) w = renew-Sound s w
Step-Sound _ _ (stops s) w =
    without_timer-Sound s.timer (record s { phase = stopped }) refl w.running_eq w.last_request
Step-Sound _ _ (pauses s s1 h) w = paused-Sound s.phase s s1 h w
Step-Sound _ _ (resumes s s1 job h) w = resumed-Sound s.phase job s s1 refl h w
Step-Sound _ _ (settles s cause) w = settle_renewal-Sound cause s w
Step-Sound _ _ (finishes s n) w = finish_renewal-Sound n s w
