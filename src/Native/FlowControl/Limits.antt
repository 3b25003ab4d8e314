-- ===== src/Native/FlowControl/Limits.antt =====
-- The pump against the limits.
use Prim.Native.Nat.{ℕ, ◌+◌, ◌≤◌, ◌<◌, max}
use mathlib.Core.Path.{◌≡◌, refl, sym, ap, ◌∙◌}
use mathlib.Core.Logic.{◌⊎◌, inl, inr}
use mathlib.Core.List.{List}
use native.Mathlib.Decide.{ℕ_discrete}
use native.Mathlib.Omega.{arith}
use ferricstore_typescript.Common.Maps.{or_zero, get, get-set_self, get-set_ne}
use ferricstore_typescript.Native.FlowControl.{
  FlowControl, active_in, activate, grant_from, get_queue, pump,
}
use ferricstore_typescript.Native.FlowControl.Pumping.{with_ready, Stopped, pump_induction}
use ferricstore_typescript.Native.FlowControl.Accounts.{SameCredits, grants}

-- The limits are the same, and no count of active requests has been raised past its limit.
abbrev pub Within : FlowControl → FlowControl → Type 0
Within s t =
    (t.connection_limit ≡ s.connection_limit)
    × (t.lane_limit ≡ s.lane_limit)
    × (t.active_total ≤ max s.active_total s.connection_limit)
    × ((lane : ℕ) → active_in lane t ≤ max (active_in lane s) s.lane_limit)

active_in-eq :
    (lane : ℕ) (s t : FlowControl)
    → t.active_by_lane ≡ s.active_by_lane
    → active_in lane t ≡ active_in lane s
unfolding active_in
active_in-eq lane s t e = ap (λ (m : List (ℕ × ℕ)). or_zero (get ℕ_discrete lane m)) e

active_in-activate :
    (k lane : ℕ) (s : FlowControl)
    → (active_in k (activate lane s) ≡ active_in k s)
      ⊎ ((k ≡ lane) × (active_in k (activate lane s) ≡ active_in lane s + 1))
unfolding active_in activate
active_in-activate k lane s =
    let n : ℕ = or_zero (get ℕ_discrete lane s.active_by_lane) + 1 in
    elim (ℕ_discrete k lane) [
      | yes h ↦ inr (h, rw h (ap or_zero (get-set_self ℕ_discrete lane n s.active_by_lane)))
      | no h ↦ inl (ap or_zero (get-set_ne ℕ_discrete lane k n s.active_by_lane (λ e. h (sym e))))
    ]

activate_fields :
    (lane : ℕ) (s : FlowControl)
    → ((activate lane s).active_total ≡ s.active_total + 1)
      × ((activate lane s).is_closed ≡ s.is_closed)
      × ((activate lane s).connection_limit ≡ s.connection_limit)
      × ((activate lane s).lane_limit ≡ s.lane_limit)
unfolding activate
activate_fields lane s = (refl, refl, refl, refl)

SameCredits-Within : (base s t : FlowControl) → SameCredits s t → Within base s → Within base t
SameCredits-Within base s t (a, b, c, d) (c1, d1, t1, l1) =
    (c ∙ c1, d ∙ d1, rw a t1, λ lane. rw (active_in-eq lane s t b) (l1 lane))

activate-Within :
    (base s : FlowControl) (lane : ℕ)
    → Within base s
    → s.active_total < s.connection_limit
    → active_in lane s < s.lane_limit
    → Within base (activate lane s)
activate-Within base s lane (c, d, t, l) lt free =
    let (a, b, e, f) = activate_fields lane s in
    (
      e ∙ c,
      f ∙ d,
      rw a (omega (arith, c)),
      λ k. elim (active_in-activate k lane s) [
        | inl h ↦ rw h (l k)
        | inr (h, g) ↦ rw (g, h) (omega (arith, d))
      ],
    )

-- The pump leaves the limits as they are, raises neither the total of active requests past the
-- connection's limit nor a lane's count past the lane limit, and stops only when the connection is
-- closed, the connection's credits are used up, or each ready lane has no waiter or no credit left.
pub pump_stops-Within : (s : FlowControl) → Within s (pump s) × Stopped (pump s)
pump_stops-Within s =
    pump_induction (Within s)
      (λ t r w. SameCredits-Within s t (with_ready t r) (refl, refl, refl, refl) w)
      (λ t lane w lt free. elim (grants t lane (get_queue lane t)) [
        | inl h ↦ SameCredits-Within s t (grant_from lane t (get_queue lane t)) h w
        | inr h ↦
            SameCredits-Within s (activate lane t) (grant_from lane t (get_queue lane t)) h
              (activate-Within s t lane w lt free)
      ])
      s (refl, refl, omega arith, λ lane. omega arith)
