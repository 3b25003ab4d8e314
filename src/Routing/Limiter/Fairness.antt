-- ===== src/Routing/Limiter/Fairness.antt =====
-- The limiter lets the operations through in the order of their calls, within its limit.
use Prim.Native.Nat.{ℕ, ◌+◌, ◌*◌, ◌≤◌}
use mathlib.Core.Path.{◌≡◌, refl, sym, ap, ◌∙◌}
use mathlib.Core.Logic.{◌⊎◌, inl, inr}
use mathlib.Core.Bool.{◌&&◌}
use mathlib.Core.Option.{Option, none, some}
use mathlib.Core.List.{List, [], ◌∷◌, ◌++◌, append-nil, append_assoc}
use native.Mathlib.Omega.{arith}
use ferricstore_typescript.Common.{
  length, length-append, get_elem?, drop, drop_all, drop-get_elem?, drop_past_end, drop-append_le,
  ltb, leb, ◌==◌, Bool-cases, ltb→lt, ltb_false→le, ==_iff,
}
use ferricstore_typescript.Routing.Limiter.{
  Limiter, new_limiter, acquire, trim, release_to, release_slot,
}

abbrev pub waiting : Limiter → List ℕ
waiting s = drop s.head s.pending

pub data Call : Type 0 where
  acquire_call : ℕ → Call
  release_call : Call

abbrev pub step : Call → Limiter → Limiter
step (acquire_call w) s = acquire s w
step release_call s = release_slot s

abbrev pub run : List Call → Limiter → Limiter
run [] s = s
run (c ∷ cs) s = run cs (step c s)

abbrev pub arrivals : List Call → List ℕ
arrivals [] = []
arrivals (acquire_call w ∷ cs) = w ∷ arrivals cs
arrivals (release_call ∷ cs) = arrivals cs

-- `run` releases only what it has acquired.
abbrev pub IsPaired : List Call → Limiter → Type 0
IsPaired [] s = Unit {0}
IsPaired (acquire_call w ∷ cs) s = IsPaired cs (acquire s w)
IsPaired (release_call ∷ cs) s = (1 ≤ s.active) × IsPaired cs (release_slot s)

-- Nobody waits while there is room, and no more are active than may be.
pub record IsFair (s : Limiter) : Type 0 where
  pub head_le : s.head ≤ length s.pending
  pub active_le : s.active ≤ s.concurrency
  pub full : (waiting s ≡ []) ⊎ (s.concurrency ≤ s.active)

-- The operations in the order of their calls: those let through, and those that wait.
abbrev queue : Limiter → List ℕ
queue s = s.started ++ waiting s

acquire_lem :
    (s : Limiter) (w : ℕ)
    → IsFair s
    → IsFair (acquire s w) × (queue (acquire s w) ≡ queue s ++ (w ∷ []))
unfolding acquire
acquire_lem s w v = elim (Bool-cases (ltb s.active s.concurrency)) [
  | inl e ↦
      (let lt = ltb→lt _ _ e in
        let f : waiting s ≡ [] = elim v.full [ inl f ↦ f | inr g ↦ absurd (omega arith) ] in
        rw e (
          record { head_le = v.head_le; active_le = omega arith; full = inl f },
          rw (f, append-nil (s.started ++ (w ∷ [])), append-nil s.started) refl,
        ))
  | inr e ↦ rw e (
    record {
      head_le = omega (arith, v.head_le, length-append s.pending (w ∷ []));
      active_le = v.active_le;
      full = inr (ltb_false→le _ _ e);
    },
    rw (drop-append_le s.head s.pending (w ∷ []) v.head_le)
        (sym (append_assoc s.started (waiting s) (w ∷ []))),
  )
]

trim_lem :
    (s : Limiter)
    → s.head ≤ length s.pending
    → ((trim s).head ≤ length (trim s).pending)
      × (waiting (trim s) ≡ waiting s)
      × ((trim s).active ≡ s.active)
      × ((trim s).concurrency ≡ s.concurrency)
      × ((trim s).started ≡ s.started)
unfolding trim
trim_lem s h = elim (Bool-cases (s.head == length s.pending)) [
  | inl e ↦ rw e (
    omega arith,
    sym (drop_all s.head s.pending (omega (arith, (==_iff _ _).0 e))),
    refl,
    refl,
    refl,
  )
  | inr e ↦ rw e (elim (Bool-cases (leb 1024 s.head && leb (length s.pending) (s.head * 2))) [
    | inl f ↦ rw f (omega arith, refl, refl, refl, refl)
    | inr f ↦ rw f (h, refl, refl, refl, refl)
  ])
]

release_to_lem :
    (s : Limiter) (o : Option ℕ)
    → get_elem? s.pending s.head ≡ o
    → IsFair s
    → IsFair (release_to s o) × (queue (release_to s o) ≡ queue s)
unfolding release_to
release_to_lem s none e v = (
  record {
    head_le = v.head_le;
    active_le = omega (arith, v.active_le);
    full = inl (drop_past_end s.head s.pending e);
  },
  refl,
)
release_to_lem s (some w) e v =
    let (d, l) = drop-get_elem? s.head s.pending w e in
    let t : Limiter = record s { head = s.head + 1; started = s.started ++ (w ∷ []) } in
    let (h, q, a, c, st) = trim_lem t (omega arith) in
    let busy : s.concurrency ≤ s.active = elim v.full [
      | inl f ↦ (let n = sym d ∙ f in cc)
      | inr g ↦ g
    ] in
    (
      record { head_le = h; active_le = rw (a, c) (v.active_le); full = inr (rw (a, c) busy) },
      rw (st, q, d) (append_assoc s.started (w ∷ []) (drop (s.head + 1) s.pending)),
    )

step_lem :
    (c : Call) (s : Limiter)
    → IsFair s
    → IsFair (step c s) × (queue (step c s) ≡ queue s ++ arrivals (c ∷ []))
unfolding release_slot
step_lem (acquire_call w) s v = acquire_lem s w v
step_lem release_call s v =
    let (f, q) = release_to_lem s (get_elem? s.pending s.head) refl v in
    (f, q ∙ sym (append-nil (queue s)))

run_lem :
    (calls : List Call) (s : Limiter)
    → IsFair s
    → IsFair (run calls s) × (queue (run calls s) ≡ queue s ++ arrivals calls)
run_lem [] s v = (v, sym (append-nil (queue s)))
run_lem (acquire_call w ∷ cs) s v =
    let (f, q) = step_lem (acquire_call w) s v in
    let (g, r) = run_lem cs (acquire s w) f in
    (g, r ∙ rw q (append_assoc (queue s) (w ∷ []) (arrivals cs)))
run_lem (release_call ∷ cs) s v =
    let (f, q) = release_to_lem s (get_elem? s.pending s.head) refl v in
    let (g, r) = run_lem cs (release_slot s) (step_lem release_call s v).0 in
    (
      g,
      r
          ∙ ap (λ (l : List ℕ). l ++ arrivals cs)
              ((step_lem release_call s v).1 ∙ append-nil (queue s)),
    )

-- After any calls on a new limiter that release only while an operation is active, no more operations are active than may be, none waits while
-- there is room, and those let through, followed by those that wait, are all that have asked, in
-- the order in which they asked.
pub run_in_order :
    (concurrency : ℕ) (calls : List Call)
    → IsPaired calls (new_limiter concurrency)
    → IsFair (run calls (new_limiter concurrency))
      × ((run calls (new_limiter concurrency)).started
            ++ waiting (run calls (new_limiter concurrency))
          ≡ arrivals calls)
run_in_order concurrency calls paired =
    run_lem calls (new_limiter concurrency)
      (record { head_le = omega arith; active_le = omega arith; full = inl refl })
