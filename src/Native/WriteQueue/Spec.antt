-- ===== src/Native/WriteQueue/Spec.antt =====
-- The queue as its client sees it: the requests that wait with their frames, in order; no array
-- with a head, no map, no compaction.
use ferricstore_typescript.Common.{
  ℕ, ◌+◌, ◌-◌, Bool, true, List, [], ◌∷◌, ◌++◌, ltb, not, if◌then◌else◌, length,
}
use ferricstore_typescript.Native.WriteQueue.{
  Queue, SocketAnswer, accepted, full, failed, WriteFailure, queue_full, unsent, queue_rejected,
}
use ferricstore_typescript.Native.WriteQueue.Waiting.{waiting, frame_bytes, withdraw}

pub record Outline : Type 0 where
  pub frames : List (ℕ × List ℕ)
  pub limit : ℕ
  pub is_full : Bool
  pub tried : ℕ
  pub passed : List (List ℕ)
  pub refused : List (ℕ × WriteFailure)

abbrev pub outline_with : List (ℕ × List ℕ) → Queue → Outline
outline_with frames s = record {
  frames = frames;
  limit = s.max_queued_bytes;
  is_full = s.blocked;
  tried = s.attempts;
  passed = s.sent;
  refused = s.rejected;
}

abbrev pub outline : Queue → Outline
outline s = outline_with (waiting s) s

unfoldable pub refuse : ℕ → WriteFailure → Outline → Outline
refuse id reason o = record o { refused = o.refused ++ ((id, reason) ∷ []) }

unfoldable pub drop_request : ℕ → Outline → Outline
drop_request id o = record o { frames = withdraw id o.frames }

unfoldable pub refuse_each : List (ℕ × List ℕ) → Outline → Outline
refuse_each [] o = o
refuse_each ((id, frame) ∷ rest) o =
    refuse_each rest
      (record o { frames = rest; refused = o.refused ++ ((id, queue_rejected) ∷ []) })

unfoldable pub passed_on : ℕ → List ℕ → SocketAnswer → Outline → Outline
passed_on id frame accepted o = record o { passed = o.passed ++ (frame ∷ []); tried = o.tried + 1 }
passed_on id frame full o = record o {
  passed = o.passed ++ (frame ∷ []);
  tried = o.tried + 1;
  is_full = true;
}
passed_on id frame failed o = record o {
  tried = o.tried + 1;
  refused = o.refused ++ ((id, unsent) ∷ []);
}

module _ (socket : ℕ → SocketAnswer) where
  unfoldable pub pass : ℕ → List ℕ → Outline → Outline
  pass id frame o = passed_on id frame (socket o.tried) o

  -- A frame is passed on at once, or waits behind the others where there is place.
  unfoldable pub accept : ℕ → List ℕ → Outline → Outline
  accept id frame o =
      if not o.is_full
      then pass id frame o
      else if ltb (o.limit - frame_bytes o.frames) (length frame)
      then refuse id queue_full o
      else record o { frames = o.frames ++ ((id, frame) ∷ []) }

  -- The frames are passed on, in order, until the socket is full; those whose request is no longer
  -- pending are left out.
  unfoldable pub drain : (ℕ → Bool) → List (ℕ × List ℕ) → Outline → Outline
  drain has_pending [] o = record o { frames = [] }
  drain has_pending ((id, frame) ∷ rest) o =
      let gone = record o { frames = rest } in
      let next = drain has_pending rest (if has_pending id then pass id frame gone else gone) in
      if o.is_full then record o { frames = (id, frame) ∷ rest } else next
