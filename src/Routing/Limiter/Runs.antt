-- ===== src/Routing/Limiter/Runs.antt =====
-- A run of the limiter with one slot, and its theorem at that run.
use mathlib.Core.Path.{◌≡◌}
use native.Mathlib.Omega.{arith}
use mathlib.Core.List.{[], ◌∷◌, ◌++◌}
use ferricstore_typescript.Routing.Limiter.{new_limiter, acquire}
use ferricstore_typescript.Routing.Limiter.Fairness.{
  acquire_call, release_call, IsFair, run, waiting, run_in_order,
}

run_in_order_example :
    IsFair (run (acquire_call 7 ∷ acquire_call 8 ∷ release_call ∷ []) (new_limiter 1))
    × ((run (acquire_call 7 ∷ acquire_call 8 ∷ release_call ∷ []) (new_limiter 1)).started
          ++ waiting (run (acquire_call 7 ∷ acquire_call 8 ∷ release_call ∷ []) (new_limiter 1))
        ≡ 7 ∷ 8 ∷ [])
unfolding acquire
run_in_order_example =
    run_in_order 1 (acquire_call 7 ∷ acquire_call 8 ∷ release_call ∷ []) (omega arith, tt)
