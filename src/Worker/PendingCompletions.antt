-- ===== src/Worker/PendingCompletions.antt =====
-- `QueuePendingCompletions` of src/queue-pending-completions.ts: completions that are under way. A
-- completion is known by its number; the promise that settles is the call `settle`, and `woken`
-- lists the waiters that `notifySettled` has resolved. An error is known by its number too. What the client's `completeJobs` and
-- `assertQueueCompletionSuccess` make of a batch is an argument, an error or none.
pub mod Collecting
pub mod Runs
use Prim.Native.Nat.{ℕ, ◌+◌}
use mathlib.Core.Bool.{Bool, true, false, ◌||◌}
use mathlib.Core.Option.{Option, none, some}
use mathlib.Core.List.{List, [], ◌∷◌, ◌++◌}
use ferricstore_typescript.Common.{length, ltb, ◌==◌, if◌then◌else◌}
use ferricstore_typescript.Common.Results.{Result, ok, err}

pub record PendingCompletion : Type 0 where
  pub number : ℕ
  pub done : Bool
  pub error : Option ℕ
  pub value : ℕ

pub record PendingCompletions : Type 0 where
  pub pending : List PendingCompletion
  pub settled_waiters : List ℕ
  pub woken : List ℕ

pub enqueue : PendingCompletions → ℕ → PendingCompletions
enqueue s number = record s {
  pending = s.pending ++ (record { number = number; done = false; error = none; value = 0 } ∷ []);
}

-- The handlers of the promise: success counts the jobs, failure keeps the error.
unfoldable pub settled : Option ℕ → ℕ → PendingCompletion → PendingCompletion
settled none jobs p = record p { done = true; value = jobs }
settled (some e) jobs p = record p { done = true; error = some e }

unfoldable pub settle_in : ℕ → Option ℕ → ℕ → List PendingCompletion → List PendingCompletion
settle_in number outcome jobs [] = []
settle_in number outcome jobs (p ∷ ps) =
    (if p.number == number then settled outcome jobs p else p) ∷ settle_in number outcome jobs ps

pub settle : PendingCompletions → ℕ → Option ℕ → ℕ → PendingCompletions
settle s number outcome jobs = record s {
  pending = settle_in number outcome jobs s.pending;
  settled_waiters = [];
  woken = s.woken ++ s.settled_waiters;
}

unfoldable pub first_of : Option ℕ → Option ℕ → Option ℕ
first_of none new = new
first_of (some old) new = some old

unfoldable pub count : Option ℕ → ℕ → ℕ → ℕ
count none completed value = completed + value
count (some e) completed value = completed

-- The loop: what is kept, what is completed, and the first failure.
unfoldable pub collect_loop :
    List PendingCompletion → ℕ → Option ℕ → List PendingCompletion × ℕ × Option ℕ
collect_loop [] completed first_failure = ([], completed, first_failure)
collect_loop (p ∷ ps) completed first_failure =
    let waiting = collect_loop ps completed first_failure in
    let taken =
      collect_loop ps (count p.error completed p.value) (first_of first_failure p.error) in
    if p.done then taken else (p ∷ waiting.0, waiting.1, waiting.2)

unfoldable pub verdict : ℕ → Option ℕ → Result (ℕ × ℕ) ℕ
verdict completed none = ok completed
verdict completed (some e) = err (e, completed)

pub collect_settled : PendingCompletions → PendingCompletions × Result (ℕ × ℕ) ℕ
collect_settled s =
    let r = collect_loop s.pending 0 none in (record s { pending = r.0 }, verdict r.1 r.2)

-- `drainOne` up to its wait: a result, or the waiter that is added.
unfoldable pub drained :
    PendingCompletions
    → ℕ
    → PendingCompletions
    → Result (ℕ × ℕ) ℕ
    → PendingCompletions × Option (Result (ℕ × ℕ) ℕ)
drained s waiter t (err e) = (t, some (err e))
drained s waiter t (ok completed) =
    if ltb (length t.pending) (length s.pending) || (length t.pending == 0)
    then (t, some (ok completed))
    else (record t { settled_waiters = t.settled_waiters ++ (waiter ∷ []) }, none)

pub drain_one : PendingCompletions → ℕ → PendingCompletions × Option (Result (ℕ × ℕ) ℕ)
drain_one s waiter = let r = collect_settled s in drained s waiter r.0 r.1
