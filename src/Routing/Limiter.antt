-- ===== src/Routing/Limiter.antt =====
-- `TaskConcurrencyLimiter` of src/topology-utilities.ts: at most so many operations at once, the
-- others in an array with a head index. A waiter is its number; `started` lists, in order, the
-- operations whose `acquire` has been let through. `run` is `acquire`, the operation, `release`.
pub mod Fairness
pub mod Runs
use Prim.Native.Nat.{ℕ, ◌+◌, ◌-◌, ◌*◌}
use mathlib.Core.Bool.{Bool, true, false, ◌&&◌}
use mathlib.Core.Option.{Option, none, some}
use mathlib.Core.List.{List, [], ◌∷◌, ◌++◌}
use ferricstore_typescript.Common.{length, get_elem?, drop, ltb, leb, ◌==◌, if◌then◌else◌}

pub record Limiter : Type 0 where
  pub concurrency : ℕ
  pub active : ℕ
  pub head : ℕ
  pub pending : List ℕ
  pub started : List ℕ

abbrev pub new_limiter : ℕ → Limiter
new_limiter concurrency = record {
  concurrency = concurrency;
  active = 0;
  head = 0;
  pending = [];
  started = [];
}

pub acquire : Limiter → ℕ → Limiter
acquire s w =
    if ltb s.active s.concurrency
    then record s { active = s.active + 1; started = s.started ++ (w ∷ []) }
    else record s { pending = s.pending ++ (w ∷ []) }

unfoldable pub trim : Limiter → Limiter
trim s =
    if s.head == length s.pending
    then record s { head = 0; pending = [] }
    else if leb 1024 s.head && leb (length s.pending) (s.head * 2)
    then record s { head = 0; pending = drop s.head s.pending }
    else s

unfoldable pub release_to : Limiter → Option ℕ → Limiter
release_to s none = record s { active = s.active - 1 }
release_to s (some next) = trim (record s { head = s.head + 1; started = s.started ++ (next ∷ []) })

pub release_slot : Limiter → Limiter
release_slot s = release_to s (get_elem? s.pending s.head)
