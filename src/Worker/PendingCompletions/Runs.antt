-- ===== src/Worker/PendingCompletions/Runs.antt =====
-- A batch that has succeeded, one under way and one that has failed.
use mathlib.Core.Path.{◌≡◌}
use mathlib.Core.List.{[], ◌∷◌}
use mathlib.Core.Option.{none, some}
use ferricstore_typescript.Worker.PendingCompletions.{
  PendingCompletions, enqueue, settle, collect_settled,
}
use ferricstore_typescript.Worker.PendingCompletions.Collecting.{
  unfinished, jobs_done, errors, outcome, collect_settled_parts,
}

abbrev three : PendingCompletions
three =
    settle
      (settle
        (enqueue
          (enqueue (enqueue (record { pending = []; settled_waiters = 9 ∷ []; woken = [] }) 1) 2) 3)
        1 none 5)
      3 (some 40) 7

collect_settled_parts_example : collect_settled three ≡ (
  record three { pending = unfinished three.pending },
  outcome (jobs_done three.pending) (errors three.pending),
)
collect_settled_parts_example = collect_settled_parts three
