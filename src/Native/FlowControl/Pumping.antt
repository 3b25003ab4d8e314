-- ===== src/Native/FlowControl/Pumping.antt =====
-- The pump: it ends by itself, stops only when nothing more may be granted, and each credit it
-- gives is within the limits.
use Prim.Native.Nat.{ℕ, zero, suc, ◌+◌, ◌-◌, ◌≤◌, ◌<◌}
use mathlib.Core.Path.{◌≡◌, refl, ap, ◌∙◌, subst}
use mathlib.Core.Logic.{◌⊎◌, inl, inr}
use mathlib.Core.Bool.{Bool, true, false, not, ◌&&◌}
use mathlib.Core.Option.{Option, none, some}
use mathlib.Core.List.{List, [], ◌∷◌, ◌++◌, append-nil}
use native.Mathlib.Decide.{ℕ_discrete}
use native.Mathlib.Omega.{arith}
use ferricstore_typescript.Common.{
  All, length, length-append, ltb, ◌==◌, if◌then◌else◌, Bool-cases, ltb→lt, ltb_false→le, ==_iff,
}
use ferricstore_typescript.Common.Maps.{add, add_present, add_behind, remove_head}
use ferricstore_typescript.Native.FlowControl.{
  FlowControl, LaneQueue, get_queue, active_in, has_waiting, drop_ready, add_ready, first_of,
  attempt, attempts, next_grantable_lane, may_pump, pump_round, pump_loop, pump_rounds, pump,
  grant_from, grant, left_queue, put_queue, drop_queue, activate, take_waiter,
}

-- The state with other ready lanes.
abbrev pub with_ready : FlowControl → List ℕ → FlowControl
with_ready s r = record s { ready_lanes = r }

abbrev pub can_grant : FlowControl → ℕ → Bool
can_grant s lane = has_waiting (get_queue lane s) && ltb (active_in lane s) s.lane_limit

abbrev pub Blocked : FlowControl → ℕ → Type 0
Blocked s lane = can_grant s lane ≡ false

-- A set keeps what stands in front when a member is added.
add-split :
    (P : ℕ → Type 0) (x : ℕ) (xs ys : List ℕ)
    → P x
    → All P ys
    → (zs : List ℕ) × (add ℕ_discrete x (xs ++ ys) ≡ xs ++ zs)
      × All P zs
      × (length zs ≤ length ys + 1)
add-split P x [] [] p a = (x ∷ [], refl, (p, tt), omega arith)
add-split P x [] (y ∷ ys) p (b, a) =
    let (zs, e, c, l) = add-split P x [] ys p a in
    elim (ℕ_discrete y x) [
      | yes h ↦ (y ∷ ys, add_present ℕ_discrete x y ys h, (b, a), omega arith)
      | no h ↦ (y ∷ zs, add_behind ℕ_discrete x y ys h ∙ ap (◌∷◌ y) e, (b, c), omega arith)
    ]
add-split P x (w ∷ xs) ys p a =
    let (zs, e, c, l) = add-split P x xs ys p a in
    elim (ℕ_discrete w x) [
      | yes h ↦ (ys, add_present ℕ_discrete x w (xs ++ ys) h, a, omega arith)
      | no h ↦ (zs, add_behind ℕ_discrete x w (xs ++ ys) h ∙ ap (◌∷◌ w) e, c, l)
    ]

-- What a search for a lane has found: nothing, and every ready lane is blocked; or a lane that may
-- have a credit, which is then taken out of the ready ones.
abbrev Tried : FlowControl → ℕ → FlowControl × Option ℕ → Type 0
Tried s bound result =
    ((r : List ℕ) × (result ≡ (with_ready s r, none)) × All (Blocked s) r)
    ⊎ ((r : List ℕ) × (lane : ℕ) × (result ≡ (with_ready s r, some lane))
        × (ltb (active_in lane s) s.lane_limit ≡ true)
        × (length r + 1 ≤ bound))

blocked_by : (a b : Bool) → b ≡ false → (a && b) ≡ false
blocked_by true b e = e
blocked_by false b e = refl

Tried-le :
    (s : FlowControl) (m n : ℕ) (r : FlowControl × Option ℕ) → m ≤ n → Tried s m r → Tried s n r
Tried-le s m n r h (inl t) = inl t
Tried-le s m n r h (inr (l, lane, e, g, b)) = inr (l, lane, e, g, omega arith)

attempt_head :
    (go : FlowControl → FlowControl × Option ℕ) (s : FlowControl) (x : ℕ) (l : List ℕ)
    → attempt go (with_ready s (x ∷ l)) (some x) ≡ (
        if not (has_waiting (get_queue x s))
        then go (with_ready s l)
        else if ltb (active_in x s) s.lane_limit
        then (with_ready s l, some x)
        else go (with_ready s (add ℕ_discrete x l)))
unfolding attempt drop_ready add_ready get_queue active_in
attempt_head go s x l = rw (remove_head ℕ_discrete x l) refl

attempts-Tried :
    (s : FlowControl) (xs ys : List ℕ)
    → All (Blocked s) ys
    → Tried s (length xs + length ys) (attempts (length xs) (with_ready s (xs ++ ys)))
unfolding attempts first_of
attempts-Tried s [] ys a = inl (ys, refl, a)
attempts-Tried s (x ∷ xs) ys a =
    let n : ℕ = length (x ∷ xs) + length ys in
    let e = attempt_head (attempts (length xs)) s x (xs ++ ys) in
    rw e (elim (Bool-cases (has_waiting (get_queue x s))) [
      | inl w ↦ rw w (elim (Bool-cases (ltb (active_in x s) s.lane_limit)) [
        | inl g ↦ rw g (inr (xs ++ ys, x, refl, g, omega (arith, length-append xs ys)))
        | inr g ↦ rw g (
            let (zs, f, c, l) = add-split (Blocked s) x xs ys (rw (w, g) refl) a in
            rw f (Tried-le s _ n _ (omega arith) (attempts-Tried s xs zs c)))
      ])
      | inr w ↦ rw w (Tried-le s _ n _ (omega arith) (attempts-Tried s xs ys a))
    ])

next_grantable_lane-Tried :
    (s : FlowControl) → Tried s (length s.ready_lanes) (next_grantable_lane s)
unfolding next_grantable_lane
next_grantable_lane-Tried s =
    let e = append-nil s.ready_lanes in
    let t = attempts-Tried s s.ready_lanes [] tt in
    Tried-le s _ _ _ (omega arith) (
      subst
        (λ (l : List ℕ).
          Tried s (length s.ready_lanes + 0) (attempts (length s.ready_lanes) (with_ready s l)))
        e t)

length-add_le : (x : ℕ) (l : List ℕ) → length (add ℕ_discrete x l) ≤ length l + 1
length-add_le x [] = omega arith
length-add_le x (y ∷ l) = ground (arith, length-add_le x l)

-- What a round on a lane does to the number that bounds the rounds.
record Rounds (s t : FlowControl) : Type 0 where
  limit_eq : t.connection_limit ≡ s.connection_limit
  counts :
      ((t.active_total ≡ s.active_total) × (length t.ready_lanes ≤ length s.ready_lanes))
      ⊎ ((t.active_total ≡ s.active_total + 1) × (length t.ready_lanes ≤ length s.ready_lanes + 1))

left_queue_lem :
    (lane : ℕ) (q : LaneQueue) (s : FlowControl)
    → ((left_queue lane q s).connection_limit ≡ s.connection_limit)
      × ((left_queue lane q s).active_total ≡ s.active_total)
      × (length (left_queue lane q s).ready_lanes ≤ length s.ready_lanes + 1)
unfolding left_queue drop_queue put_queue add_ready
left_queue_lem lane q s = elim (Bool-cases (q.waiting == 0)) [
  | inl e ↦ rw e (refl, refl, omega arith)
  | inr e ↦ rw e (refl, refl, length-add_le lane s.ready_lanes)
]

grant-Rounds : (lane : ℕ) (s : FlowControl) (p : LaneQueue × Option ℕ) → Rounds s (grant lane s p)
unfolding grant activate drop_queue
grant-Rounds lane s (q, none) = record { limit_eq = refl; counts = inl (refl, omega arith) }
grant-Rounds lane s (q, some w) =
    let (c, a, l) =
      left_queue_lem lane (record q { waiting = q.waiting - 1 })
        (record s { queued_total = s.queued_total - 1; settled = w ∷ s.settled }) in
    record { limit_eq = c; counts = inr (ap (λ (n : ℕ). n + 1) a, l) }

grant_from-Rounds :
    (lane : ℕ) (s : FlowControl) (o : Option LaneQueue) → Rounds s (grant_from lane s o)
unfolding grant_from
grant_from-Rounds lane s none = record { limit_eq = refl; counts = inl (refl, omega arith) }
grant_from-Rounds lane s (some q) = grant-Rounds lane s (take_waiter s.settled q)

-- Where the pump stops: the connection is closed, all its credits are given, or no ready lane has
-- both a waiter and a credit.
abbrev pub Stopped : FlowControl → Type 0
Stopped s =
    (s.is_closed ≡ true) ⊎ (s.connection_limit ≤ s.active_total) ⊎ All (Blocked s) s.ready_lanes

none_ready : (P : ℕ → Type 0) (l : List ℕ) → length l ≡ 0 → All P l
none_ready P [] h = tt
none_ready P (x ∷ l) h = absurd (omega arith)

stops :
    (s : FlowControl) (c a r : Bool)
    → s.is_closed ≡ c
    → ltb s.active_total s.connection_limit ≡ a
    → (length s.ready_lanes == 0) ≡ r
    → (not c && a && not r) ≡ false
    → Stopped s
stops s true a r e f g h = inl e
stops s false false r e f g h = inr (inl (ltb_false→le _ _ f))
stops s false true true e f g h =
    inr (inr (none_ready (Blocked s) s.ready_lanes ((==_iff _ _).0 g)))
stops s false true false e f g h = cc

pumps : (c : Bool) (a l n : ℕ) → (not c && ltb a l && not (n == 0)) ≡ true → a < l
pumps true a l n h = cc
pumps false a l n h = ground arith

may_pump-lt : (s : FlowControl) → may_pump s ≡ true → s.active_total < s.connection_limit
unfolding may_pump
may_pump-lt s h = pumps s.is_closed s.active_total s.connection_limit (length s.ready_lanes) h

still_bounded :
    (s t : FlowControl) (r : List ℕ) (n : ℕ)
    → Rounds (with_ready s r) t
    → length r + 1 ≤ length s.ready_lanes
    → s.active_total < s.connection_limit
    → pump_rounds s ≤ suc n
    → pump_rounds t ≤ n
unfolding pump_rounds
still_bounded s t r n h l lt b =
    rw h.limit_eq (elim h.counts [ inl (a, k) ↦ omega arith | inr (a, k) ↦ omega arith ])

pump_loop_goes :
    (n : ℕ) (s : FlowControl)
    → may_pump s ≡ true
    → pump_loop (suc n) s ≡ pump_round (pump_loop n) (next_grantable_lane s)
unfolding pump_loop
pump_loop_goes n s e = rw (e, pump_loop) refl

pump_loop_stops : (n : ℕ) (s : FlowControl) → may_pump s ≡ false → pump_loop (suc n) s ≡ s
unfolding pump_loop
pump_loop_stops n s e = rw (e, pump_loop) refl

pump_loop_zero : (s : FlowControl) → pump_loop 0 s ≡ s
unfolding pump_loop
pump_loop_zero s = refl

pump_stays : (go : FlowControl → FlowControl) (s : FlowControl) → pump_round go (s, none) ≡ s
unfolding pump_round
pump_stays go s = refl

pump_goes_on :
    (go : FlowControl → FlowControl) (s : FlowControl) (lane : ℕ)
    → pump_round go (s, some lane) ≡ go (grant_from lane s (get_queue lane s))
unfolding pump_round
pump_goes_on go s lane = refl

active_in-with_ready :
    (lane : ℕ) (s : FlowControl) (r : List ℕ) → active_in lane (with_ready s r) ≡ active_in lane s
unfolding active_in
active_in-with_ready lane s r = refl

not_pumping : (s : FlowControl) → may_pump s ≡ false → Stopped s
unfolding may_pump
not_pumping s e = stops s _ _ _ refl refl refl e

Blocked-with_ready :
    (s : FlowControl) (r l : List ℕ) → All (Blocked s) l → All (Blocked (with_ready s r)) l
unfolding get_queue active_in
Blocked-with_ready s r l a = a

out_of_rounds : (s : FlowControl) → pump_rounds s ≤ 0 → s.connection_limit ≤ s.active_total
unfolding pump_rounds
out_of_rounds s b = omega arith

-- What the rounds keep holds after the pump, and the rounds that it has are enough for it to stop
-- where the code's loop stops.
module _ (P : FlowControl → Type 0)
    (keeps_ready : (s : FlowControl) (r : List ℕ) → P s → P (with_ready s r))
    (keeps_grant : (s : FlowControl) (lane : ℕ)
      → P s
      → s.active_total < s.connection_limit
      → active_in lane s < s.lane_limit
      → P (grant_from lane s (get_queue lane s))) where
  pump_loop-Stopped :
      (n : ℕ) (s : FlowControl)
      → P s
      → pump_rounds s ≤ n
      → P (pump_loop n s) × Stopped (pump_loop n s)
  pump_loop-Stopped zero s p b = rw (pump_loop_zero s) (p, inr (inl (out_of_rounds s b)))
  pump_loop-Stopped (suc n) s p b = elim (Bool-cases (may_pump s)) [
    | inr e ↦ rw (pump_loop_stops n s e) (p, not_pumping s e)
    | inl e ↦ rw (pump_loop_goes n s e) (elim (next_grantable_lane-Tried s) [
      | inl (r, f, a) ↦
          rw (f, pump_stays (pump_loop n) (with_ready s r))
            (keeps_ready s r p, inr (inr (Blocked-with_ready s r r a)))
      | inr (r, lane, f, g, l) ↦
          rw (f, pump_goes_on (pump_loop n) (with_ready s r) lane)
            (let s1 : FlowControl = with_ready s r in
              let lt : s.active_total < s.connection_limit = may_pump-lt s e in
              let t : FlowControl = grant_from lane s1 (get_queue lane s1) in
              let free =
                ltb→lt _ _
                  (ap (λ (m : ℕ). ltb m s.lane_limit) (active_in-with_ready lane s r) ∙ g) in
              pump_loop-Stopped n t (keeps_grant s1 lane (keeps_ready s r p) lt free)
                (still_bounded s t r n (grant_from-Rounds lane s1 (get_queue lane s1)) l lt b))
    ])
  ]

  pub pump_induction : (s : FlowControl) → P s → P (pump s) × Stopped (pump s)
  unfolding pump
  pump_induction s p = pump_loop-Stopped (pump_rounds s) s p (omega arith)
