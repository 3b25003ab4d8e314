-- ===== src/Native/WriteQueue/Cancelling.antt =====
-- Taking requests out of the queue: `cancel`, `compact_tombstones` and `reject_queued`.
use ferricstore_typescript.Common.{
  ℕ, ◌+◌, ◌-◌, ◌*◌, ◌≡◌, inl, inr, refl, sym, ap, ◌∙◌, Bool, Bool-cases, none, some, List, [], ◌∷◌,
  ◌==◌, ◌||◌, length, arith, ==_iff, Option-cases, ltb,
}
use native.Mathlib.Decide.{ℕ_discrete}
use ferricstore_typescript.Common.Maps.{get, delete, delete-Distinct}
use ferricstore_typescript.Native.WriteQueue.{
  QueuedWrite, Queue, clear_serial, keep_live, compact_tombstones, cancel_frame, cancel_entry,
  cancel_found, cancel,
}
use ferricstore_typescript.Native.WriteQueue.Arrays.{
  request_index, sum_bytes, without, request_index-without, Cancelled, entry_of_mapped,
  keep_live_twice,
}
use ferricstore_typescript.Native.WriteQueue.Spec.{outline_with, outline, drop_request}
use ferricstore_typescript.Native.WriteQueue.Waiting.{
  view, waiting, view-without, Account, WellFormed, AllMeasured-without, Layout-clear_serial,
  keep_live-Layout, no_entries-Layout, keep_live-drop,
}

no_index : (live : List QueuedWrite) → length (request_index live) ≡ 0 → live ≡ []
no_index [] h = refl
no_index (q ∷ qs) h = absurd (omega arith)

-- Compaction keeps what waits.
pub compact_tombstones-waiting :
    (s : Queue)
    → WellFormed s
    → WellFormed (compact_tombstones s)
      × (keep_live (compact_tombstones s).writes ≡ keep_live s.writes)
unfolding compact_tombstones keep_live
compact_tombstones-waiting s (l, a) = elim (Bool-cases (length s.by_request == 0)) [
  | inl e ↦
      (let n = (==_iff (length s.by_request) 0).0 e in
        let gone = no_index (keep_live s.writes) (rw (a.index_eq) at n) in
        let a1 = rw gone at a in rw (e, gone) ((no_entries-Layout s.next_serial, a1), refl))
  | inr e ↦
      elim (Bool-cases
        (ltb s.tombstones 1024 || ltb (s.tombstones * 2) (length s.writes - s.head))) [
          | inl f ↦ rw (e, f) ((l, a), refl)
          | inr f ↦
              rw (e, f, keep_live-drop s.head s.writes l.dead, keep_live_twice s.writes)
                ((keep_live-Layout s.next_serial s.head s.writes l, a), refl)
        ]
]

without_nothing : (id : ℕ) (live : List QueuedWrite) → live ≡ [] → without id live ≡ []
without_nothing id live h = rw h refl

-- The account without a request.
Account-without :
    (id : ℕ) (by_request : List (ℕ × ℕ)) (bytes max_bytes gone : ℕ) (blocked : Bool)
    (live : List QueuedWrite)
    → Account by_request bytes max_bytes blocked live
    → sum_bytes live ≡ sum_bytes (without id live) + gone
    → Account (delete ℕ_discrete id by_request) (bytes - gone) max_bytes blocked (without id live)
Account-without id by_request bytes max_bytes gone blocked live a e = record {
  index_eq = ap (delete ℕ_discrete id) a.index_eq ∙ sym (request_index-without id live);
  bytes_eq = omega (arith, a.bytes_eq);
  measured = AllMeasured-without id live a.measured;
  distinct =
      rw (request_index-without id live)
        (delete-Distinct ℕ_discrete id (request_index live) a.distinct);
  within = omega (arith, a.within);
  idle = λ b. without_nothing id live (a.idle b);
}

-- Compaction changes nothing that the client sees.
outline_with-compact_tombstones :
    (ws : List (ℕ × List ℕ)) (s : Queue)
    → outline_with ws (compact_tombstones s) ≡ outline_with ws s
unfolding compact_tombstones
outline_with-compact_tombstones ws s = elim (Bool-cases (length s.by_request == 0)) [
  | inl e ↦ rw e refl
  | inr e ↦
      elim (Bool-cases
        (ltb s.tombstones 1024 || ltb (s.tombstones * 2) (length s.writes - s.head))) [
          | inl f ↦ rw (e, f) refl
          | inr f ↦ rw (e, f) refl
        ]
]

-- `cancel` where the map has the request.
cancel_mapped :
    (id k : ℕ) (s : Queue)
    → WellFormed s
    → Cancelled id k s.writes
    → WellFormed (cancel_found id (some k) s)
      × (keep_live (cancel_found id (some k) s).writes ≡ without id (keep_live s.writes))
      × ((ws : List (ℕ × List ℕ))
          → outline_with ws (cancel_found id (some k) s) ≡ outline_with ws s)
cancel_mapped id k s (l, a) c =
    let s1 = record s {
      writes = clear_serial c.entry.serial s.writes;
      by_request = delete ℕ_discrete id s.by_request;
      queued_bytes = s.queued_bytes - c.entry.bytes;
      tombstones = s.tombstones + 1;
    } in
    let live : keep_live s1.writes ≡ without id (keep_live s.writes) = rw (c.serial_eq) c.live_eq in
    let a1 =
      Account-without id s.by_request s.queued_bytes s.max_queued_bytes c.entry.bytes s.blocked
        (keep_live s.writes) a c.sum_eq in
    let (w, same) =
      compact_tombstones-waiting s1
        (Layout-clear_serial s.next_serial s.head c.entry.serial s.writes l, rw live a1) in
    let all : cancel_found id (some k) s ≡ compact_tombstones s1 =
      ap (λ o. cancel_entry id o s) c.found ∙ ap (λ o. cancel_frame id c.entry o s) c.kept in
    rw all (w, same ∙ live, λ ws. outline_with-compact_tombstones ws s1)

without_absent :
    (id : ℕ) (qs : List QueuedWrite)
    → get ℕ_discrete id (request_index qs) ≡ none
    → without id qs ≡ qs
without_absent id [] h = refl
without_absent id (q ∷ qs) h = ground (arith, without_absent id qs)

-- What `cancel` does: the invariant is kept, the request goes, nothing else changes.
pub cancel_parts :
    (id : ℕ) (s : Queue)
    → WellFormed s
    → WellFormed (cancel id s)
      × (keep_live (cancel id s).writes ≡ without id (keep_live s.writes))
      × ((ws : List (ℕ × List ℕ)) → outline_with ws (cancel id s) ≡ outline_with ws s)
unfolding cancel
cancel_parts id s (l, a) = elim (Option-cases (get ℕ_discrete id s.by_request)) [
  | inl e ↦
      (let g = rw (a.index_eq) at e in
        rw e ((l, a), sym (without_absent id (keep_live s.writes) g), λ ws. refl))
  | inr (k, e) ↦
      (let g = rw (a.index_eq) at e in
        rw e (cancel_mapped id k s (l, a) (entry_of_mapped id k s.writes l.unique g)))
]

-- A cancelled request does not wait any more; the others wait as before, in their order. The
-- invariant is kept.
pub cancel-drop_request :
    (id : ℕ) (s : Queue)
    → WellFormed s
    → WellFormed (cancel id s) × (outline (cancel id s) ≡ drop_request id (outline s))
unfolding drop_request
cancel-drop_request id s w =
    let (w1, live, same) = cancel_parts id s w in
    (
      w1,
      same (waiting (cancel id s))
          ∙ ap (λ ws. outline_with ws s) (ap view live ∙ view-without id (keep_live s.writes)),
    )
