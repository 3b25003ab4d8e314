-- ===== src/Native/ChunkAssembler/Messages.antt =====
-- A response that arrives in chunks comes out whole.
use Prim.Native.Nat.{ℕ, ◌+◌, ◌≤◌}
use mathlib.Core.Path.{◌≡◌, refl, sym, ap, ◌∙◌, subst}
use mathlib.Core.Bool.{true, false}
use mathlib.Core.Option.{Option, none, some, get_or}
use mathlib.Core.List.{List, [], ◌∷◌, ◌++◌, append-nil, append_assoc}
use native.Mathlib.Omega.{arith}
use ferricstore_typescript.Common.{length, length-append, concat, concat-append, All, le→ltb_false}
use ferricstore_typescript.Common.Maps.{
  get, delete, or_zero, sum_values-delete, get-set_self, delete-set, delete_absent,
}
use ferricstore_typescript.Common.Buffers.{buffer_concat_exact}
use ferricstore_typescript.Common.Results.{Result, ok, ◌>>=◌}
use ferricstore_typescript.Protocol.Frame.{ResponseFrame}
use ferricstore_typescript.Native.ChunkAssembler.{
  Assembler, Error, Key, Key-discrete, key_of, assemble, assert_limits, store_chunk, finish,
  release, has_more, is_absent,
}
use ferricstore_typescript.Native.ChunkAssembler.Invariant.{
  Inv, size, previous, new_bytes, new_frames, stored, store_chunk-Inv, size-stored,
}

finish_lem :
    (s : Assembler) (frame : ResponseFrame) (bytes : ℕ) (chunks : List (List ℕ))
    → size chunks ≡ bytes
    → finish s frame bytes (some chunks) ≡ (
      release s (key_of frame) frame.request_id,
      some (record frame { body = concat chunks; body_length = length (concat chunks) }),
    )
unfolding finish
finish_lem s frame bytes chunks e = rw (buffer_concat_exact chunks bytes e)

-- Room for `bytes` more bytes in `frames` more frames of the response under `k`.
pub record HasRoom (s : Assembler) (k : Key) (bytes frames : ℕ) : Type 0 where
  pub bytes_fit : s.total_bytes + bytes ≤ s.max_chunk_bytes
  pub frames_fit : s.total_frames + frames ≤ s.max_chunk_frames
  pub response_fits : or_zero (get Key-discrete k s.bytes_by_key) + bytes ≤ s.max_response_bytes

module _ (s : Assembler) (frame : ResponseFrame) (v : Inv s) where
  room→limits :
      HasRoom s (key_of frame) (length frame.body) 1
      → assert_limits s (new_bytes s frame v) (new_frames s frame v) (length frame.body) ≡ ok tt
  unfolding assert_limits
  room→limits r =
      let b = sum_values-delete Key-discrete (key_of frame) s.bytes_by_key in
      let f = sum_values-delete Key-discrete (key_of frame) s.frames_by_key in
      rw (
        le→ltb_false s.max_chunk_bytes (new_bytes s frame v)
            (omega (arith, b, v.bytes_sum, r.bytes_fit)),
        le→ltb_false s.max_chunk_frames (new_frames s frame v)
            (omega (arith, f, v.frames_sum, r.frames_fit)),
        le→ltb_false s.max_response_bytes (new_bytes s frame v) (omega (arith, r.response_fits)),
        le→ltb_false s.max_chunk_bytes (s.total_bytes + length frame.body) r.bytes_fit,
        le→ltb_false s.max_chunk_frames (s.total_frames + 1) r.frames_fit,
      )

  -- An inner chunk is stored.
  assemble_inner :
      HasRoom s (key_of frame) (length frame.body) 1
      → has_more frame ≡ true
      → assemble s frame ≡ ok (stored s frame v, none)
  unfolding assemble
  assemble_inner r more = rw (more, room→limits r)

  assemble_end :
      HasRoom s (key_of frame) (length frame.body) 1
      → has_more frame ≡ false
      → is_absent (previous s frame v) ≡ false
      → assemble s frame
        ≡ ok (
            finish
              (stored s frame v)
              frame
              (new_bytes s frame v)
              (get Key-discrete (key_of frame) (stored s frame v).chunks))
  unfolding assemble
  assemble_end r more e = rw (more, e, room→limits r)

  pub stored_chunks :
      get Key-discrete (key_of frame) (stored s frame v).chunks
      ≡ some (get_or (previous s frame v) [] ++ (frame.body ∷ []))
  unfolding store_chunk
  stored_chunks = get-set_self Key-discrete (key_of frame) _ s.chunks

  -- The last chunk gives the response.
  assemble_last :
      (held : List (List ℕ))
      → HasRoom s (key_of frame) (length frame.body) 1
      → has_more frame ≡ false
      → previous s frame v ≡ some held
      → assemble s frame
        ≡ ok (
          release (stored s frame v) (key_of frame) frame.request_id,
          some (record frame {
            body = concat held ++ frame.body;
            body_length = length (concat held ++ frame.body);
          }),
        )
  assemble_last held r more e =
      let whole : concat (get_or (previous s frame v) [] ++ (frame.body ∷ []))
          ≡ concat held ++ frame.body =
        rw (e, concat-append held, append-nil) in
      assemble_end r more (rw e (unfold is_absent in refl))
      ∙ ap ok (
          rw
            (stored_chunks, finish_lem (stored s frame v) frame _ _ (size-stored s frame v), whole))

  -- Room for what follows once a chunk is stored.
  room-stored :
      (bytes frames : ℕ)
      → HasRoom s (key_of frame) (length frame.body + bytes) (frames + 1)
      → HasRoom (stored s frame v) (key_of frame) bytes frames
  unfolding store_chunk
  room-stored bytes frames r = record {
    bytes_fit = omega (arith, r.bytes_fit);
    frames_fit = omega (arith, r.frames_fit);
    response_fits =
        rw (get-set_self Key-discrete (key_of frame) (new_bytes s frame v) s.bytes_by_key)
          (omega (arith, r.response_fits));
  }

  delete-stored :
      delete Key-discrete (key_of frame) (stored s frame v).chunks
      ≡ delete Key-discrete (key_of frame) s.chunks
  unfolding store_chunk
  delete-stored = delete-set Key-discrete (key_of frame) _ s.chunks

-- A connection's frames, one after the other, with the responses that come out.
pub feed : Assembler → List ResponseFrame → Result Error (Assembler × List ResponseFrame)
feed s [] = ok (s, [])
feed s (frame ∷ frames) = do
  (s', r) ← assemble s frame
  (s'', rs) ← feed s' frames
  ok (s'', emit r rs)
  where
    emit : Option ResponseFrame → List ResponseFrame → List ResponseFrame
    emit none rs = rs
    emit (some r) rs = r ∷ rs

abbrev pub bodies : List ResponseFrame → List ℕ
bodies [] = []
bodies (f ∷ fs) = f.body ++ bodies fs

abbrev pub joined : ResponseFrame → List ℕ → ResponseFrame
joined last body = record last { body = body; body_length = length body }

-- An inner chunk of the response under `k`.
abbrev pub IsInner : Key → ResponseFrame → Type 0
IsInner k frame = (key_of frame ≡ k) × (has_more frame ≡ true)

abbrev Whole : Assembler → Key → List ResponseFrame → ResponseFrame → Type 0
Whole s k frames out =
    (s' : Assembler) × (feed s frames ≡ ok (s', out ∷ []))
    × (s'.chunks ≡ delete Key-discrete k s.chunks)

-- What storing the inner chunk `f` of the response under `k` does.
record Holds (s : Assembler) (k : Key) (f : ResponseFrame) (t : Assembler) : Type 0 where
  runs : assemble s f ≡ ok (t, none)
  inv : Inv t
  chunks :
      get Key-discrete k t.chunks ≡ some (get_or (get Key-discrete k s.chunks) [] ++ (f.body ∷ []))
  others : delete Key-discrete k t.chunks ≡ delete Key-discrete k s.chunks
  room :
      (bytes frames : ℕ)
      → HasRoom s k (length f.body + bytes) (frames + 1)
      → HasRoom t k bytes frames

room_first :
    {s : Assembler} {k : Key} (bytes more frames : ℕ)
    → HasRoom s k (bytes + more) (frames + 1)
    → HasRoom s k bytes 1
room_first bytes more frames r = record {
  bytes_fit = omega (arith, r.bytes_fit);
  frames_fit = omega (arith, r.frames_fit);
  response_fits = omega (arith, r.response_fits);
}

hold :
    (s : Assembler) (k : Key) (f : ResponseFrame) (bytes frames : ℕ)
    → Inv s
    → IsInner k f
    → HasRoom s k (length f.body + bytes) (frames + 1)
    → (t : Assembler) × Holds s k f t
hold s k f bytes frames v (e, m) r = (
  stored s f v,
  subst (λ (j : Key). Holds s j f (stored s f v)) e
      (record {
        runs = assemble_inner s f v (room_first (length f.body) bytes frames (rw (← e) at r)) m;
        inv =
            store_chunk-Inv s f v
              (room→limits s f v (room_first (length f.body) bytes frames (rw (← e) at r)));
        chunks = stored_chunks s f v;
        others = delete-stored s f v;
        room = room-stored s f v;
      }),
)

room_eq :
    {s : Assembler} {k : Key} {b b' n n' : ℕ}
    → HasRoom s k b n
    → b ≡ b'
    → n ≡ n'
    → HasRoom s k b' n'
room_eq {s} {k} r p q = rw (← p, ← q) r

Whole-after :
    (s t : Assembler) (k : Key) (f : ResponseFrame) (fs : List ResponseFrame)
    (out out' : ResponseFrame)
    → Holds s k f t
    → Whole t k fs out
    → out ≡ out'
    → Whole s k (f ∷ fs) out'
unfolding feed
Whole-after s t k f fs out out' u (s', run, c) e = (s', rw (u.runs, run, e), c ∙ u.others)

next_body :
    (last : ResponseFrame) (held : List (List ℕ)) (a b c : List ℕ)
    → joined last (concat (held ++ (a ∷ [])) ++ (b ++ c))
      ≡ joined last (concat held ++ ((a ++ b) ++ c))
next_body last held a b c =
    ap (joined last)
      (rw (concat-append held, append-nil, append_assoc (concat held), append_assoc a))

rest-Whole :
    (inner : List ResponseFrame) (last : ResponseFrame) (s : Assembler) (held : List (List ℕ))
    → Inv s
    → get Key-discrete (key_of last) s.chunks ≡ some held
    → All (IsInner (key_of last)) inner
    → has_more last ≡ false
    → HasRoom s (key_of last) (length (bodies inner ++ last.body)) (length inner + 1)
    → Whole s
        (key_of last)
        (inner ++ (last ∷ []))
        (joined last (concat held ++ (bodies inner ++ last.body)))
unfolding feed
rest-Whole [] last s held v g h more room = (
  release (stored s last v) (key_of last) last.request_id,
  rw (assemble_last s last v held room more g),
  unfold release in delete-stored s last v,
)
rest-Whole (f ∷ inner) last s held v g (i, h) more room =
    let n : length f.body + length (bodies inner ++ last.body)
        ≡ length (bodies (f ∷ inner) ++ last.body) =
      omega (
        arith,
        length-append f.body (bodies inner),
        length-append (bodies inner) last.body,
        length-append (f.body ++ bodies inner) last.body,
      ) in
    let m : length (f ∷ inner) + 1 ≡ (length inner + 1) + 1 = omega arith in
    let room' = room_eq room (sym n) m in
    let (t, u) = hold s (key_of last) f _ _ v i room' in
    Whole-after s t (key_of last) f _ _ _ u
      (rest-Whole inner last t (held ++ (f.body ∷ [])) u.inv (u.chunks ∙ rw g) h more
        (u.room _ _ room'))
      (next_body last held f.body (bodies inner) last.body)

-- A response in chunks: from a state that holds nothing under its key, with room for it, the frames
-- are all taken, one response comes out, at the last frame, its body the bodies in order, and the
-- chunks held for other responses are as before.
pub feed_whole :
    (s : Assembler) (first : ResponseFrame) (inner : List ResponseFrame) (last : ResponseFrame)
    → Inv s
    → get Key-discrete (key_of last) s.chunks ≡ none
    → All (IsInner (key_of last)) (first ∷ inner)
    → has_more last ≡ false
    → HasRoom s (key_of last) (length (bodies (first ∷ inner) ++ last.body)) (length inner + 2)
    → (s' : Assembler) × (feed s (first ∷ (inner ++ (last ∷ [])))
        ≡ ok (s', joined last (bodies (first ∷ inner) ++ last.body) ∷ []))
      × (s'.chunks ≡ s.chunks)
unfolding feed
feed_whole s first inner last v g (i, h) more room =
    let n : length first.body + length (bodies inner ++ last.body)
        ≡ length (bodies (first ∷ inner) ++ last.body) =
      omega (
        arith,
        length-append first.body (bodies inner),
        length-append (bodies inner) last.body,
        length-append (first.body ++ bodies inner) last.body,
      ) in
    let m : length inner + 2 ≡ (length inner + 1) + 1 = omega arith in
    let room' = room_eq room (sym n) m in
    let (t, u) = hold s (key_of last) first _ _ v i room' in
    let (s', run, c) =
      Whole-after s t (key_of last) first _ _ _ u
        (rest-Whole inner last t (first.body ∷ []) u.inv (u.chunks ∙ rw g) h more
          (u.room _ _ room'))
        (next_body last [] first.body (bodies inner) last.body) in
    (s', run, c ∙ delete_absent Key-discrete (key_of last) s.chunks g)
