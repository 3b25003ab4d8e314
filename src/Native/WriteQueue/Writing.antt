-- ===== src/Native/WriteQueue/Writing.antt =====
-- Putting frames into the queue and rejecting what waits: `write` and `reject_queued`.
use ferricstore_typescript.Common.{
  ℕ, ◌+◌, ◌-◌, ◌≤◌, ◌≡◌, ◌≢◌, inl, inr, refl, sym, ap, ◌∙◌, subst, Bool, true, Bool-cases, none,
  some, List, [], ◌∷◌, ◌++◌, not, length, length-append, take-append_le, arith, ltb, ltb_false→le,
  true_of_not,
}
use native.Mathlib.Decide.{ℕ_discrete}
use ferricstore_typescript.Common.Maps.{get, set, set_absent, Distinct-append}
use ferricstore_typescript.Native.WriteQueue.{
  QueuedWrite, Queue, SocketAnswer, accepted, full, failed, keep_live, cancel, reject_pending,
  reject_each, reject_queued, queue_rejected, written, write_frame, write,
}
use ferricstore_typescript.Native.WriteQueue.Arrays.{
  request_index, sum_bytes, Absent, Unique, without, without_here, keep_live-append, keep_live_kept,
}
use ferricstore_typescript.Native.WriteQueue.Spec.{
  outline_with, outline, refuse_each, passed_on, pass, accept, refuse,
}
use ferricstore_typescript.Native.WriteQueue.Cancelling.{cancel_parts}
use ferricstore_typescript.Native.WriteQueue.Waiting.{
  view, view-append, waiting, frame_bytes, frame_bytes-view, Layout, Account, WellFormed, AllBelow,
  AllMeasured,
}

reject_each-refuse_each :
    (live : List QueuedWrite) (s : Queue)
    → WellFormed s
    → keep_live s.writes ≡ live
    → WellFormed (reject_each (request_index live) s)
      × (outline (reject_each (request_index live) s)
          ≡ refuse_each (view live) (outline_with (view live) s))
unfolding reject_each refuse_each reject_pending
reject_each-refuse_each [] s w e = (w, ap (λ qs. outline_with (view qs) s) e)
reject_each-refuse_each (q ∷ qs) s w e =
    let (w1, live, same) =
      cancel_parts q.request_id (reject_pending q.request_id queue_rejected s) w in
    let now = live ∙ ap (without q.request_id) e ∙ without_here q.request_id q qs refl in
    let (w2, rest) =
      reject_each-refuse_each qs
        (cancel q.request_id (reject_pending q.request_id queue_rejected s)) w1 now in
    (w2, rest ∙ ap (refuse_each (view qs)) (same (view qs)))

-- Every request that waits is rejected, in order, and nothing waits any more.
pub reject_queued-refuse_each :
    (s : Queue)
    → WellFormed s
    → WellFormed (reject_queued s)
      × (outline (reject_queued s) ≡ refuse_each (waiting s) (outline s))
unfolding reject_queued
reject_queued-refuse_each s (l, a) =
    subst
      (λ m.
        WellFormed (reject_each m s)
        × (outline (reject_each m s) ≡ refuse_each (waiting s) (outline s)))
      (sym a.index_eq) (reject_each-refuse_each (keep_live s.writes) s (l, a) refl)

-- Handing a frame to the socket leaves what waits alone.
written_parts :
    (id : ℕ) (frame : List ℕ) (outcome : SocketAnswer) (ws : List (ℕ × List ℕ)) (s : Queue)
    → outline_with ws (written id frame outcome s) ≡ passed_on id frame outcome (outline_with ws s)
unfolding written passed_on reject_pending
written_parts id frame accepted ws s = refl
written_parts id frame full ws s = refl
written_parts id frame failed ws s = refl

written_writes :
    (id : ℕ) (frame : List ℕ) (outcome : SocketAnswer) (s : Queue)
    → (written id frame outcome s).writes ≡ s.writes
unfolding written reject_pending
written_writes id frame accepted s = refl
written_writes id frame full s = refl
written_writes id frame failed s = refl

written_head :
    (id : ℕ) (frame : List ℕ) (outcome : SocketAnswer) (s : Queue)
    → (written id frame outcome s).head ≡ s.head
unfolding written reject_pending
written_head id frame accepted s = refl
written_head id frame full s = refl
written_head id frame failed s = refl

written-WellFormed :
    (id : ℕ) (frame : List ℕ) (outcome : SocketAnswer) (s : Queue)
    → WellFormed s
    → WellFormed (written id frame outcome s)
unfolding written reject_pending
written-WellFormed id frame accepted s w = w
written-WellFormed id frame full s (l, a) = (
  l,
  record {
    index_eq = a.index_eq;
    bytes_eq = a.bytes_eq;
    measured = a.measured;
    distinct = a.distinct;
    within = a.within;
    idle = λ b. cc;
  },
)
written-WellFormed id frame failed s w = w

request_index-append :
    (qs rs : List QueuedWrite) → request_index (qs ++ rs) ≡ request_index qs ++ request_index rs
request_index-append [] rs = refl
request_index-append (q ∷ qs) rs =
    ap (λ m. (q.request_id, q.serial) ∷ m) (request_index-append qs rs)

sum_bytes-append : (qs rs : List QueuedWrite) → sum_bytes (qs ++ rs) ≡ sum_bytes qs + sum_bytes rs
sum_bytes-append [] rs = omega arith
sum_bytes-append (q ∷ qs) rs = omega (arith, sum_bytes-append qs rs)

AllMeasured-append :
    (qs rs : List QueuedWrite) → AllMeasured qs → AllMeasured rs → AllMeasured (qs ++ rs)
AllMeasured-append [] rs m n = n
AllMeasured-append (q ∷ qs) rs (e, m) n = (e, AllMeasured-append qs rs m n)

Absent-append :
    (k : ℕ) (qs : List QueuedWrite) (q : QueuedWrite)
    → Absent k qs
    → q.serial ≢ k
    → Absent k (qs ++ (q ∷ []))
Absent-append k [] q a ne = (ne, tt)
Absent-append k (p ∷ qs) q (b, a) ne = (b, Absent-append k qs q a ne)

Unique-append :
    (qs : List QueuedWrite) (q : QueuedWrite)
    → Unique qs
    → AllBelow q.serial qs
    → Unique (qs ++ (q ∷ []))
Unique-append [] q u b = (tt, tt)
Unique-append (p ∷ qs) q (a, u) (b, bs) =
    (Absent-append p.serial qs q a (λ e. omega arith), Unique-append qs q u bs)

AllBelow-append :
    (next : ℕ) (qs : List QueuedWrite) (q : QueuedWrite)
    → AllBelow next qs
    → q.serial ≡ next
    → AllBelow (next + 1) (qs ++ (q ∷ []))
AllBelow-append next [] q b e = (omega arith, tt)
AllBelow-append next (p ∷ qs) q (b, bs) e = (omega arith, AllBelow-append next qs q bs e)

Layout-append :
    (next head : ℕ) (qs : List QueuedWrite) (q : QueuedWrite)
    → Layout next head qs
    → q.serial ≡ next
    → Layout (next + 1) head (qs ++ (q ∷ []))
Layout-append next head qs q l e = record {
  unique = Unique-append qs q l.unique (rw e (l.below));
  below = AllBelow-append next qs q l.below e;
  head_le = omega (arith, length-append qs (q ∷ []), l.head_le);
  dead = ap keep_live (take-append_le head qs (q ∷ []) l.head_le) ∙ l.dead;
}

Account-append :
    (id serial : ℕ) (frame : List ℕ) (by_request : List (ℕ × ℕ)) (bytes max_bytes : ℕ)
    (blocked : Bool) (live : List QueuedWrite) (q : QueuedWrite)
    → Account by_request bytes max_bytes blocked live
    → get ℕ_discrete id by_request ≡ none
    → blocked ≡ true
    → length frame ≤ max_bytes - bytes
    → q ≡ record { serial = serial; bytes = length frame; frame = some frame; request_id = id }
    → Account
        (set ℕ_discrete id serial by_request)
        (bytes + length frame)
        max_bytes
        blocked
        (live ++ (q ∷ []))
Account-append id serial frame by_request bytes max_bytes blocked live q a h b fits e =
    rw e (record {
      index_eq =
          set_absent ℕ_discrete id serial by_request h
          ∙ ap (λ m. m ++ ((id, serial) ∷ [])) a.index_eq
          ∙ sym (request_index-append live _);
      bytes_eq = omega (
        arith,
        a.bytes_eq,
        sum_bytes-append live (
            record { serial = serial; bytes = length frame; frame = some frame; request_id = id }
            ∷ []),
      );
      measured = AllMeasured-append live _ a.measured (refl, tt);
      distinct =
          rw
            (request_index-append live (
              record { serial = serial; bytes = length frame; frame = some frame; request_id = id }
              ∷ []))
            (Distinct-append ℕ_discrete id serial (request_index live) a.distinct
              (let g = rw (a.index_eq) at h in g));
      within = omega (arith, a.within);
      idle = λ c. cc;
    })

keep_live-new : (q : QueuedWrite) (f : List ℕ) → q.frame ≡ some f → keep_live (q ∷ []) ≡ q ∷ []
unfolding keep_live
keep_live-new q f e = keep_live_kept q [] f e

module _ (socket : ℕ → SocketAnswer) where
  pub write_frame-pass :
      (id : ℕ) (frame : List ℕ) (ws : List (ℕ × List ℕ)) (s : Queue)
      → outline_with ws (write_frame socket id frame s) ≡ pass socket id frame (outline_with ws s)
  unfolding write_frame pass
  write_frame-pass id frame ws s = written_parts id frame (socket s.attempts) ws s

  pub write_frame_writes :
      (id : ℕ) (frame : List ℕ) (s : Queue) → (write_frame socket id frame s).writes ≡ s.writes
  unfolding write_frame
  write_frame_writes id frame s = written_writes id frame (socket s.attempts) s

  pub write_frame_head :
      (id : ℕ) (frame : List ℕ) (s : Queue) → (write_frame socket id frame s).head ≡ s.head
  unfolding write_frame
  write_frame_head id frame s = written_head id frame (socket s.attempts) s

  pub write_frame-WellFormed :
      (id : ℕ) (frame : List ℕ) (s : Queue)
      → WellFormed s
      → WellFormed (write_frame socket id frame s)
  unfolding write_frame
  write_frame-WellFormed id frame s w = written-WellFormed id frame (socket s.attempts) s w

  pub outline-write_frame :
      (id : ℕ) (frame : List ℕ) (s : Queue)
      → outline (write_frame socket id frame s) ≡ pass socket id frame (outline s)
  outline-write_frame id frame s =
      ap (λ qs. outline_with (view (keep_live qs)) (write_frame socket id frame s))
        (write_frame_writes id frame s)
      ∙ write_frame-pass id frame (waiting s) s

  -- A frame of a request that does not wait yet goes to the socket, is refused, or waits behind
  -- all the others, as `accept` says. The invariant is kept.
  pub write-accept :
      (id : ℕ) (frame : List ℕ) (s : Queue)
      → WellFormed s
      → get ℕ_discrete id s.by_request ≡ none
      → WellFormed (write socket id frame s)
        × (outline (write socket id frame s) ≡ accept socket id frame (outline s))
  unfolding write accept refuse reject_pending
  write-accept id frame s (l, a) new =
      let room : s.max_queued_bytes - frame_bytes (waiting s)
          ≡ s.max_queued_bytes - s.queued_bytes =
        omega (arith, frame_bytes-view (keep_live s.writes) a.measured, a.bytes_eq) in
      elim (Bool-cases (not s.blocked)) [
        | inl e ↦ rw e (write_frame-WellFormed id frame s (l, a), outline-write_frame id frame s)
        | inr e ↦ elim (Bool-cases (ltb (s.max_queued_bytes - s.queued_bytes) (length frame))) [
          | inl f ↦ rw (e, room, f) ((l, a), refl)
          | inr f ↦
              (let q : QueuedWrite = record {
                serial = s.next_serial;
                bytes = length frame;
                frame = some frame;
                request_id = id;
              } in
                let live : keep_live (s.writes ++ (q ∷ [])) ≡ keep_live s.writes ++ (q ∷ []) =
                  keep_live-append s.writes (q ∷ [])
                  ∙ ap (λ qs. keep_live s.writes ++ qs) (keep_live-new q frame refl) in
                rw (e, room, f, live)
                  (
                    (
                      Layout-append s.next_serial s.head s.writes q l refl,
                      Account-append id s.next_serial frame s.by_request s.queued_bytes
                          s.max_queued_bytes s.blocked (keep_live s.writes) q a new
                          (true_of_not s.blocked e) (ltb_false→le _ _ f) refl,
                    ),
                    ap (λ ws. outline_with ws s) (view-append (keep_live s.writes) (q ∷ [])),
                  ))
        ]
      ]
