-- ===== src/Native/WriteQueue/Flushing.antt =====
-- The loop of `flush` over the array passes on what waits, in order.
use ferricstore_typescript.Common.{
  ℕ, zero, suc, ◌+◌, ◌-◌, ◌*◌, ◌≤◌, ◌<◌, ◌≡◌, ◌⊎◌, if_cases, inl, inr, refl, sym, ap, ◌∙◌, subst,
  Bool, true, false, Bool-cases, none, some, List, [], ◌∷◌, ◌==◌, ◌&&◌, if◌then◌else◌, not, length,
  take_all, drop, get_elem?, Option-cases, arith, ==_iff, ltb, leb, ltb→lt, ltb_false→le,
}
use ferricstore_typescript.Native.WriteQueue.{
  QueuedWrite, Queue, SocketAnswer, keep_live, write_frame, take_head, trim_head, flush_frame,
  flush_entry, flush_loop, flush,
}
use ferricstore_typescript.Native.WriteQueue.Arrays.{Unique}
use ferricstore_typescript.Native.WriteQueue.Spec.{Outline, outline_with, outline, pass, drain}
use ferricstore_typescript.Native.WriteQueue.Writing.{
  outline-write_frame, write_frame_writes, write_frame_head,
}
use ferricstore_typescript.Native.WriteQueue.Taking.{
  length-clear_at, Draining, step_over, taken_parts, written-Draining,
}
use ferricstore_typescript.Native.WriteQueue.Waiting.{
  AllBelow, view, waiting, Account, AccountOf, WellFormed, no_entries-Layout, keep_live-drop,
}

-- There is an entry at every index of the array.
entry_at :
    (i : ℕ) (qs : List QueuedWrite) → i < length qs → (q : QueuedWrite) × (get_elem? qs i ≡ some q)
entry_at i [] h = absurd (omega arith)
entry_at zero (q ∷ qs) h = (q, refl)
entry_at (suc i) (q ∷ qs) h = entry_at i qs (omega arith)

nothing_waits : (s : Queue) → Draining s → length s.writes ≤ s.head → keep_live s.writes ≡ []
nothing_waits s (l, a) h = sym (ap keep_live (take_all s.head s.writes h)) ∙ l.dead

Unique-drop : (i : ℕ) (qs : List QueuedWrite) → Unique qs → Unique (drop i qs)
Unique-drop zero qs u = u
Unique-drop (suc i) [] u = u
Unique-drop (suc i) (q ∷ qs) (a, u) = Unique-drop i qs u

AllBelow-drop : (next i : ℕ) (qs : List QueuedWrite) → AllBelow next qs → AllBelow next (drop i qs)
AllBelow-drop next zero qs b = b
AllBelow-drop next (suc i) [] b = b
AllBelow-drop next (suc i) (q ∷ qs) (b, bs) = AllBelow-drop next i qs bs

-- The array loses what is before the head.
pub trim_head-waiting :
    (s : Queue)
    → Draining s
    → (s.blocked ≡ false → keep_live s.writes ≡ [])
    → WellFormed (trim_head s) × (outline (trim_head s) ≡ outline s)
unfolding trim_head keep_live
trim_head-waiting s (l, a) idle =
    let a1 : AccountOf s = record {
      index_eq = a.index_eq;
      bytes_eq = a.bytes_eq;
      measured = a.measured;
      distinct = a.distinct;
      within = a.within;
      idle = idle;
    } in
    elim (Bool-cases (s.head == length s.writes)) [
      | inl e ↦
          (let gone = nothing_waits s (l, a) (omega (arith, (==_iff _ _).0 e)) in
            rw e (
              (no_entries-Layout s.next_serial, let b = rw gone at a1 in b),
              ap (λ qs. outline_with (view qs) s) (sym gone),
            ))
      | inr e ↦ elim (Bool-cases (leb 1024 s.head && leb (length s.writes) (s.head * 2))) [
        | inl f ↦
            (let same = keep_live-drop s.head s.writes l.dead in
              rw (e, f, same)
                (
                  (
                    record {
                      unique = Unique-drop s.head s.writes l.unique;
                      below = AllBelow-drop s.next_serial s.head s.writes l.below;
                      head_le = omega arith;
                      dead = refl;
                    },
                    a1,
                  ),
                  refl,
                ))
        | inr f ↦ rw (e, f) ((l, a1), refl)
      ]
    ]

both_true : (b c : Bool) → (not b && c) ≡ true → (b ≡ false) × (c ≡ true)
both_true true c h = cc
both_true false c h = (refl, h)

one_false : (b c : Bool) → (not b && c) ≡ false → (b ≡ true) ⊎ (c ≡ false)
one_false true c h = inl refl
one_false false c h = inr h

module _ (socket : ℕ → SocketAnswer) (has_pending : ℕ → Bool) where
  drain_full :
      (ws : List (ℕ × List ℕ)) (o : Outline)
      → o.is_full ≡ true
      → drain socket has_pending ws o ≡ record o { frames = ws }
  unfolding drain
  drain_full [] o h = refl
  drain_full ((id, frame) ∷ rest) o h = rw h refl

  -- One turn of the loop does one step of the list.
  Advanced : Queue → Queue → Type 0
  Advanced s s1 = (s1.head ≡ s.head + 1) × (length s1.writes ≡ length s.writes)

  Turned : Queue → Queue → Type 0
  Turned s s1 =
      Draining s1
      × (drain socket has_pending (waiting s) (outline s)
          ≡ drain socket has_pending (waiting s1) (outline s1))
      × Advanced s s1

  past_step :
      (s : Queue) (q : QueuedWrite)
      → Draining s
      → s.head < length s.writes
      → get_elem? s.writes s.head ≡ some q
      → q.frame ≡ none
      → Turned s (flush_entry socket has_pending (some q) s)
  unfolding Turned Advanced
  past_step s q w h g e =
      subst (λ o. Turned s (flush_frame socket has_pending q o s)) (sym e)
        (step_over s q (s.tombstones - 1) w h g e, refl, (refl, refl))

  -- The list gives its first frame away where the socket takes frames.
  drain_ready :
      (id : ℕ) (frame : List ℕ) (rest : List (ℕ × List ℕ)) (o : Outline)
      → o.is_full ≡ false
      → drain socket has_pending ((id, frame) ∷ rest) o
        ≡ drain socket has_pending rest (
            if has_pending id
            then pass socket id frame (record o { frames = rest })
            else record o { frames = rest })
  unfolding drain
  drain_ready id frame rest o h =
      ap
        (λ b.
          if b
          then record o { frames = (id, frame) ∷ rest }
          else drain socket has_pending rest (
              if has_pending id
              then pass socket id frame (record o { frames = rest })
              else record o { frames = rest }))
        h

  step_if :
      (b : Bool) (id : ℕ) (f : List ℕ) (s s1 : Queue)
      → Draining s1
      → drain socket has_pending (waiting s) (outline s)
        ≡ drain socket has_pending
            (waiting s1)
            (if b then pass socket id f (outline s1) else outline s1)
      → Advanced s s1
      → Turned s (if b then write_frame socket id f s1 else s1)
  unfolding Turned Advanced write_frame
  step_if true id f s s1 w e (at_head, same) = (
    written-Draining id f (socket s1.attempts) s1 w,
    e
        ∙ ap (drain socket has_pending (waiting s1)) (sym (outline-write_frame socket id f s1))
        ∙ ap
            (λ qs.
              drain socket has_pending (view (keep_live qs)) (outline (write_frame socket id f s1)))
            (sym (write_frame_writes socket id f s1)),
    (
      write_frame_head socket id f s1 ∙ at_head,
      ap length (write_frame_writes socket id f s1) ∙ same,
    ),
  )
  step_if false id f s s1 w e v = (w, e, v)

  taken_step :
      (s : Queue) (q : QueuedWrite) (f : List ℕ)
      → Draining s
      → s.blocked ≡ false
      → s.head < length s.writes
      → get_elem? s.writes s.head ≡ some q
      → q.frame ≡ some f
      → Turned s (flush_entry socket has_pending (some q) s)
  unfolding take_head Advanced
  taken_step s q f w ready h g e =
      let (w1, live) = taken_parts s q f w h g e in
      subst (λ o. Turned s (flush_frame socket has_pending q o s)) (sym e)
        (step_if (has_pending q.request_id) q.request_id f s (take_head q s) w1
          (ap (λ ws. drain socket has_pending ws (outline_with ws s)) live
            ∙ drain_ready q.request_id f (waiting (take_head q s)) _ ready)
          (refl, length-clear_at s.head s.writes))

  turned :
      (s : Queue)
      → Draining s
      → s.blocked ≡ false
      → s.head < length s.writes
      → Turned s (flush_entry socket has_pending (get_elem? s.writes s.head) s)
  turned s w ready h =
      let (q, g) = entry_at s.head s.writes h in
      subst (λ o. Turned s (flush_entry socket has_pending o s)) (sym g)
        (elim (Option-cases q.frame) [
          | inl e ↦ past_step s q w h g e
          | inr (f, e) ↦ taken_step s q f w ready h g e
        ])

  Ended : Queue → Queue → Type 0
  Ended s s1 =
      Draining s1
      × (s1.blocked ≡ false → keep_live s1.writes ≡ [])
      × (outline s1 ≡ drain socket has_pending (waiting s) (outline s))

  full_end : (s : Queue) → Draining s → s.blocked ≡ true → Ended s s
  unfolding Ended
  full_end s w h = (w, λ b. cc, sym (drain_full (waiting s) (outline s) h))

  empty_end : (s : Queue) → Draining s → length s.writes ≤ s.head → Ended s s
  unfolding Ended drain
  empty_end s w h =
      let gone = nothing_waits s w h in
      (
        w,
        λ b. gone,
        ap (λ qs. outline_with (view qs) s) gone
            ∙ sym (ap (λ qs. drain socket has_pending (view qs) (outline_with (view qs) s)) gone),
      )

  -- The loop, given fuel for the entries that are left, ends where the socket is full or nothing
  -- waits, and has done what `drain` does.
  flush_loop-Ended :
      (fuel : ℕ) (s : Queue)
      → Draining s
      → length s.writes ≤ s.head + fuel
      → Ended s (flush_loop socket has_pending fuel s)
  unfolding flush_loop Turned Ended Advanced
  flush_loop-Ended zero s w h = empty_end s w (omega arith)
  flush_loop-Ended (suc fuel) s w h =
      if_cases (Ended s) (not s.blocked && ltb s.head (length s.writes)) _ _
        (λ go.
          let (ready, more) = both_true s.blocked _ go in
          let (w1, same, (at_head, len)) = turned s w ready (ltb→lt _ _ more) in
          let (w2, idle, end) =
            flush_loop-Ended fuel (flush_entry socket has_pending (get_elem? s.writes s.head) s) w1
              (omega arith) in
          (w2, idle, end ∙ sym same))
        (λ stop. elim (one_false s.blocked _ stop) [
          | inl b ↦ full_end s w b
          | inr b ↦ empty_end s w (ltb_false→le _ _ b)
        ])

  -- A flush of an open connection's queue passes on what waits, in order, until the socket is full,
  -- as `drain` does. The invariant is kept.
  pub flush-drain :
      (s : Queue)
      → WellFormed s
      → WellFormed (flush socket has_pending false s)
        × (outline (flush socket has_pending false s)
            ≡ drain socket has_pending (waiting s) (record (outline s) { is_full = false }))
  unfolding flush Ended
  flush-drain s (l, a) =
      let start = record s { blocked = false } in
      let a1 : Account s.by_request s.queued_bytes s.max_queued_bytes true (keep_live s.writes) =
        record {
          index_eq = a.index_eq;
          bytes_eq = a.bytes_eq;
          measured = a.measured;
          distinct = a.distinct;
          within = a.within;
          idle = λ b. cc;
        } in
      let (w1, idle, same) =
        flush_loop-Ended (length s.writes - s.head) start (l, a1) (omega (arith, l.head_le)) in
      let (w2, kept) =
        trim_head-waiting (flush_loop socket has_pending (length s.writes - s.head) start) w1
          idle in
      (w2, kept ∙ same)
