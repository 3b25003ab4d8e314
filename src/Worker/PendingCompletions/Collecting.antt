-- ===== src/Worker/PendingCompletions/Collecting.antt =====
-- What is collected, against a description of each part by itself.
use Prim.Native.Nat.{ℕ, ◌+◌}
use mathlib.Core.Path.{◌≡◌, refl}
use mathlib.Core.Logic.{inl, inr}
use mathlib.Core.Bool.{Bool, true, false}
use mathlib.Core.Option.{Option, none, some}
use mathlib.Core.List.{List, [], ◌∷◌, ◌++◌}
use native.Mathlib.Omega.{arith}
use ferricstore_typescript.Common.{if◌then◌else◌, Bool-cases}
use ferricstore_typescript.Common.Results.{Result, ok, err}
use ferricstore_typescript.Worker.PendingCompletions.{
  PendingCompletion, PendingCompletions, first_of, count, collect_loop, verdict, collect_settled,
}

-- The completions that have not settled, in their order.
abbrev pub unfinished : List PendingCompletion → List PendingCompletion
unfinished [] = []
unfinished (p ∷ ps) = if p.done then unfinished ps else p ∷ unfinished ps

-- The jobs of a completion: none before it has settled, and none when it has failed.
abbrev pub jobs_in : Bool → Option ℕ → ℕ → ℕ
jobs_in false error jobs = 0
jobs_in true none jobs = jobs
jobs_in true (some e) jobs = 0

-- The errors of a completion: the one it has failed with, once it has settled.
abbrev pub errors_in : Bool → Option ℕ → List ℕ
errors_in false error = []
errors_in true none = []
errors_in true (some e) = e ∷ []

-- The jobs of all that have settled without an error.
abbrev pub jobs_done : List PendingCompletion → ℕ
jobs_done [] = 0
jobs_done (p ∷ ps) = jobs_in p.done p.error p.value + jobs_done ps

-- The errors of all that have failed, in their order.
abbrev pub errors : List PendingCompletion → List ℕ
errors [] = []
errors (p ∷ ps) = errors_in p.done p.error ++ errors ps

-- The number of jobs, or the first of the errors with that number.
abbrev pub outcome : ℕ → List ℕ → Result (ℕ × ℕ) ℕ
outcome jobs [] = ok jobs
outcome jobs (e ∷ es) = err (e, jobs)

-- What the loop has found, as the errors that lead to it.
abbrev found : Option ℕ → List ℕ → List ℕ
found none es = es
found (some e) es = e ∷ es

abbrev head_of : List ℕ → Option ℕ
head_of [] = none
head_of (e ∷ es) = some e

first_of-found :
    (f error : Option ℕ) (es : List ℕ)
    → head_of (found (first_of f error) es) ≡ head_of (found f (errors_in true error ++ es))
unfolding first_of
first_of-found none none es = refl
first_of-found none (some e) es = refl
first_of-found (some x) none es = refl
first_of-found (some x) (some e) es = refl

count-jobs_in :
    (error : Option ℕ) (n v m : ℕ) → count error n v + m ≡ n + (jobs_in true error v + m)
unfolding count
count-jobs_in none n v m = omega arith
count-jobs_in (some e) n v m = omega arith

collect_loop_lem :
    (ps : List PendingCompletion) (n : ℕ) (f : Option ℕ)
    → collect_loop ps n f ≡ (unfinished ps, n + jobs_done ps, head_of (found f (errors ps)))
unfolding collect_loop
collect_loop_lem [] n none = let z : n ≡ n + 0 = omega arith in rw (← z) refl
collect_loop_lem [] n (some e) = let z : n ≡ n + 0 = omega arith in rw (← z) refl
collect_loop_lem (p ∷ ps) n f = elim (Bool-cases p.done) [
  | inl e ↦
      rw (e, collect_loop_lem ps (count p.error n p.value) (first_of f p.error))
        (rw (count-jobs_in p.error n p.value (jobs_done ps), first_of-found f p.error (errors ps))
          refl)
  | inr e ↦
      (let z : 0 + jobs_done ps ≡ jobs_done ps = omega arith in
        rw (e, collect_loop_lem ps n f, z) refl)
]

verdict-head_of : (n : ℕ) (es : List ℕ) → verdict n (head_of es) ≡ outcome n es
unfolding verdict
verdict-head_of n [] = refl
verdict-head_of n (e ∷ es) = refl

-- Collecting keeps the completions that have not settled, in their order, and gives the number of
-- jobs of all that have settled without an error: as the result when none has failed, or else with
-- the error of the first that has failed.
pub collect_settled_parts :
    (s : PendingCompletions)
    → collect_settled s ≡ (
      record s { pending = unfinished s.pending },
      outcome (jobs_done s.pending) (errors s.pending),
    )
unfolding collect_settled
collect_settled_parts s =
    let z : 0 + jobs_done s.pending ≡ jobs_done s.pending = omega arith in
    rw
      (
        collect_loop_lem s.pending 0 none,
        z,
        verdict-head_of (jobs_done s.pending) (errors s.pending),
      )
      refl
