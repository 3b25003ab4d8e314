-- ===== src/Native/WriteQueue/Runs.antt =====
-- A queue behind a full socket, and the theorems at it.
use ferricstore_typescript.Common.{ℕ, ◌==◌, ◌≡◌, refl, true, false, [], ◌∷◌, if◌then◌else◌, arith}
use native.Mathlib.Decide.{ℕ_discrete}
use ferricstore_typescript.Native.WriteQueue.{
  Queue, SocketAnswer, accepted, full, new_queue, write, write_frame, written, cancel, flush,
  flush_loop, reject_queued, take_head, trim_head, clear_at, keep_live,
}
use ferricstore_typescript.Native.WriteQueue.Waiting.{waiting, WellFormed}
use ferricstore_typescript.Native.WriteQueue.Spec.{
  outline, accept, drop_request, refuse_each, drain,
}
use ferricstore_typescript.Native.WriteQueue.Cancelling.{cancel-drop_request}
use ferricstore_typescript.Native.WriteQueue.Writing.{write-accept, reject_queued-refuse_each}
use ferricstore_typescript.Native.WriteQueue.Flushing.{flush-drain}

-- The first write fills the socket, the later ones do not.
abbrev socket_of : ℕ → SocketAnswer
socket_of n = if n == 0 then full else accepted

new_queue-WellFormed : WellFormed (new_queue 10)
unfolding keep_live
new_queue-WellFormed = (
  record { unique = tt; below = tt; head_le = omega arith; dead = refl },
  record {
    index_eq = refl;
    bytes_eq = refl;
    measured = tt;
    distinct = tt;
    within = omega arith;
    idle = λ b. refl;
  },
)

abbrev blocked_queue : Queue
blocked_queue = write socket_of 1 (7 ∷ []) (new_queue 10)

blocked_queue-WellFormed : WellFormed blocked_queue
blocked_queue-WellFormed =
    (write-accept socket_of 1 (7 ∷ []) (new_queue 10) new_queue-WellFormed refl).0

abbrev one_waits : Queue
one_waits = write socket_of 2 (8 ∷ 8 ∷ []) blocked_queue

one_waits-WellFormed : WellFormed one_waits
unfolding write write_frame written ℕ_discrete
one_waits-WellFormed =
    (write-accept socket_of 2 (8 ∷ 8 ∷ []) blocked_queue blocked_queue-WellFormed refl).0

abbrev two_wait : Queue
two_wait = write socket_of 3 (9 ∷ []) one_waits

two_wait-WellFormed : WellFormed two_wait
unfolding write write_frame written ℕ_discrete
two_wait-WellFormed = (write-accept socket_of 3 (9 ∷ []) one_waits one_waits-WellFormed refl).0

two_wait_in_order : waiting two_wait ≡ (2, 8 ∷ 8 ∷ []) ∷ (3, 9 ∷ []) ∷ []
unfolding write write_frame written keep_live
two_wait_in_order = refl

flushed_in_order :
    (flush socket_of (λ id. true) false two_wait).sent ≡ (7 ∷ []) ∷ (8 ∷ 8 ∷ []) ∷ (9 ∷ []) ∷ []
unfolding write write_frame written flush flush_loop take_head trim_head clear_at
flushed_in_order = refl

write-accept_example :
    WellFormed (write socket_of 3 (9 ∷ []) one_waits)
    × (outline (write socket_of 3 (9 ∷ []) one_waits)
        ≡ accept socket_of 3 (9 ∷ []) (outline one_waits))
unfolding write write_frame written ℕ_discrete
write-accept_example = write-accept socket_of 3 (9 ∷ []) one_waits one_waits-WellFormed refl

cancel-drop_request_example :
    WellFormed (cancel 2 two_wait)
    × (outline (cancel 2 two_wait) ≡ drop_request 2 (outline two_wait))
cancel-drop_request_example = cancel-drop_request 2 two_wait two_wait-WellFormed

reject_queued-refuse_each_example :
    WellFormed (reject_queued two_wait)
    × (outline (reject_queued two_wait) ≡ refuse_each (waiting two_wait) (outline two_wait))
reject_queued-refuse_each_example = reject_queued-refuse_each two_wait two_wait-WellFormed

flush-drain_example :
    WellFormed (flush socket_of (λ id. true) false two_wait)
    × (outline (flush socket_of (λ id. true) false two_wait)
        ≡ drain socket_of
            (λ id. true)
            (waiting two_wait)
            (record (outline two_wait) { is_full = false }))
flush-drain_example = flush-drain socket_of (λ id. true) two_wait two_wait-WellFormed
