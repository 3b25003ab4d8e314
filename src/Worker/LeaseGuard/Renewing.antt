-- ===== src/Worker/LeaseGuard/Renewing.antt =====
-- When the guard extends a lease, and what no call leaves behind.
use ferricstore_typescript.Common.{
  ℕ, ◌≡◌, ◌⊎◌, inl, inr, refl, sym, ap, ◌∙◌, Bool, true, false, ◌||◌, not, if_cases, Option, none,
  some, [], ◌∷◌, ◌++◌,
}
use ferricstore_typescript.Common.Words.{ℤ}
use ferricstore_typescript.Common.Results.{ok, err}
use ferricstore_typescript.Worker.LeaseGuard.{
  LeasedJob, Phase, active, paused, stopped, guard_is_stopped, guard_is_not_paused, Guard,
  is_active, is_missing, cancel_renewal, start_renewal, new_guard, stop, pause_from,
  pause_for_lease_mutation, resume_from, resume_with, extension_of, renew, settle_renewal,
  is_renewal, finish_renewal, snapshot_leased_job,
}
use ferricstore_typescript.Worker.LeaseGuard.Steps.{
  Step, ticks, stops, pauses, resumes, settles, finishes, Steps, here, then_on, Sound, Step-Sound,
  without_timer_same, start_renewal-Sound, is_active-active,
}

Steps-Sound : (s s1 : Guard) → Steps s s1 → Sound s → Sound s1
Steps-Sound _ _ (here s) w = w
Steps-Sound _ _ (then_on s s1 s2 a b) w = Steps-Sound s1 s2 b (Step-Sound s s1 a w)

-- However a guard has been used since it was made, only its own interval runs, and none unless it
-- is active; and a renewal in flight is the last that it has sent.
pub new_guard-Sound :
    (job : LeasedJob) (lease_ms : ℕ) (enabled : Bool) (interval : Option ℤ) (s : Guard)
    → Steps (new_guard job lease_ms enabled interval) s
    → Sound s
unfolding new_guard
new_guard-Sound job lease_ms enabled interval s h =
    Steps-Sound (new_guard job lease_ms enabled interval) s h
      (start_renewal-Sound _ refl refl (λ n e. cc))

-- A step sends nothing, or one renewal of the job that is held, from a guard that is active, has
-- not failed, and has none in flight.
abbrev pub Sends : Guard → Guard → Type 0
Sends s s1 =
    (s1.requests ≡ s.requests)
    ⊎ ((s.phase ≡ active)
        × (s.failure ≡ none)
        × (s.in_flight ≡ none)
        × (s1.requests ≡ s.requests ++ (extension_of s ∷ [])))

missing_is_none : (o : Option ℕ) → is_missing o ≡ true → o ≡ none
missing_is_none none h = refl
missing_is_none (some n) h = cc

or_false_three :
    (a b c : Bool) → (not a || not b || not c) ≡ false → (a ≡ true) × (b ≡ true) × (c ≡ true)
or_false_three true true true h = (refl, refl, refl)
or_false_three false b c h = cc
or_false_three true false c h = cc
or_false_three true true false h = cc

renew-Sends : (s : Guard) → Sends s (renew s)
unfolding renew
renew-Sends s =
    if_cases (Sends s)
      (not (is_active s.phase) || not (is_missing s.failure) || not (is_missing s.in_flight)) s _
      (λ b. inl refl)
      (λ b.
        let (p, f, g) =
          or_false_three (is_active s.phase) (is_missing s.failure) (is_missing s.in_flight) b in
        inr (
          is_active-active s.phase p,
          missing_is_none s.failure f,
          missing_is_none s.in_flight g,
          refl,
        ))

start_renewal_same :
    (s : Guard) → ((start_renewal s).requests ≡ s.requests) × ((start_renewal s).phase ≡ s.phase)
unfolding start_renewal
start_renewal_same s =
    if_cases (λ (x : Guard). (x.requests ≡ s.requests) × (x.phase ≡ s.phase))
      (not s.renewal_enabled || not (is_active s.phase)) s _ (λ b. (refl, refl)) (λ b. (refl, refl))

paused_same : (p : Phase) (s s1 : Guard) → pause_from p s ≡ ok s1 → s1.requests ≡ s.requests
unfolding cancel_renewal
paused_same active s s1 h =
    let e : cancel_renewal (record s { phase = paused }) ≡ s1 = cc in
    ap (λ (x : Guard). x.requests) (sym e)
    ∙ (without_timer_same s.timer (record s { phase = paused })).1
paused_same paused s s1 h = let e : s ≡ s1 = cc in ap (λ (x : Guard). x.requests) (sym e)
paused_same stopped s s1 h = cc

resumed_same :
    (p : Phase) (job : LeasedJob) (s s1 : Guard)
    → resume_from p job s ≡ ok s1
    → s1.requests ≡ s.requests
resumed_same paused job s s1 h =
    let s0 = record s { current_job = snapshot_leased_job job; phase = active } in
    let g : start_renewal s0 ≡ s1 = cc in
    ap (λ (x : Guard). x.requests) (sym g) ∙ (start_renewal_same s0).0
resumed_same active job s s1 h = cc
resumed_same stopped job s s1 h = cc

settled_same :
    (cause : Option ℕ) (s : Guard)
    → ((settle_renewal cause s).requests ≡ s.requests) × ((settle_renewal cause s).phase ≡ s.phase)
unfolding settle_renewal cancel_renewal
settled_same none s = (refl, refl)
settled_same (some cause) s =
    let (p, r, f) = without_timer_same s.timer (record s { failure = some cause }) in (r, p)

finished_same :
    (n : ℕ) (s : Guard)
    → ((finish_renewal n s).requests ≡ s.requests) × ((finish_renewal n s).phase ≡ s.phase)
unfolding finish_renewal
finished_same n s =
    if_cases (λ (x : Guard). (x.requests ≡ s.requests) × (x.phase ≡ s.phase))
      (is_renewal n s.in_flight) _ s (λ b. (refl, refl)) (λ b. (refl, refl))

-- A step sends a renewal only from a guard that is active, has not failed and has none in flight,
-- and then one, for the job that it holds.
pub Step-Sends : (s s1 : Guard) → Step s s1 → Sends s s1
unfolding stop cancel_renewal pause_for_lease_mutation resume_with
Step-Sends _ _ (ticks s t h) = renew-Sends s
Step-Sends _ _ (stops s) = inl (without_timer_same s.timer (record s { phase = stopped })).1
Step-Sends _ _ (pauses s s1 h) = inl (paused_same s.phase s s1 h)
Step-Sends _ _ (resumes s s1 job h) = inl (resumed_same s.phase job s s1 h)
Step-Sends _ _ (settles s cause) = inl (settled_same cause s).0
Step-Sends _ _ (finishes s n) = inl (finished_same n s).0

-- A stopped guard stays stopped.
Step-stopped : (s s1 : Guard) → Step s s1 → s.phase ≡ stopped → s1.phase ≡ stopped
unfolding stop cancel_renewal pause_for_lease_mutation resume_with renew
Step-stopped _ _ (ticks s t h) e =
    if_cases (λ (x : Guard). x.phase ≡ stopped)
      (not (is_active s.phase) || not (is_missing s.failure) || not (is_missing s.in_flight)) s _
      (λ b. e) (λ b. e)
Step-stopped _ _ (stops s) e = (without_timer_same s.timer (record s { phase = stopped })).0
Step-stopped _ _ (pauses s s1 h) e =
    let z : err guard_is_stopped ≡ ok s1 = sym (ap (λ p. pause_from p s) e) ∙ h in cc
Step-stopped _ _ (resumes s s1 job h) e =
    let z : err guard_is_not_paused ≡ ok s1 = sym (ap (λ p. resume_from p job s) e) ∙ h in cc
Step-stopped _ _ (settles s cause) e = (settled_same cause s).1 ∙ e
Step-stopped _ _ (finishes s n) e = (finished_same n s).1 ∙ e

sends_nothing : (s s1 : Guard) → Step s s1 → s.phase ≡ stopped → s1.requests ≡ s.requests
sends_nothing s s1 h e = elim (Step-Sends s s1 h) [
  | inl same ↦ same
  | inr (a, b, c, d) ↦ (let z : active ≡ stopped = sym a ∙ e in cc)
]

-- Once stopped, a guard sends no renewal any more, whatever is called and whichever of its
-- renewals settle.
pub stopped_for_good :
    (s s1 : Guard)
    → Steps s s1
    → s.phase ≡ stopped
    → (s1.phase ≡ stopped) × (s1.requests ≡ s.requests)
stopped_for_good _ _ (here s) e = (e, refl)
stopped_for_good _ _ (then_on s s1 s2 a b) e =
    let (p, r) = stopped_for_good s1 s2 b (Step-stopped s s1 a e) in (p, r ∙ sends_nothing s s1 a e)
