-- ===== src/Native/ChunkAssembler/Invariant.antt =====
-- The counters of the chunk assembler agree with the chunks that it holds.
use Prim.Native.Nat.{ℕ, ◌+◌, ◌≤◌}
use mathlib.Core.Path.{◌≡◌, refl, sym, ap, ◌∙◌, subst}
use mathlib.Core.Bool.{Bool, true, false, not, ◌&&◌}
use mathlib.Core.Option
use mathlib.Core.Option.{Option, none, some, get_or}
use mathlib.Core.List.{List, [], ◌∷◌, ◌++◌, append-nil}
use native.Mathlib.Omega.{arith}
use ferricstore_typescript.Common.{
  length, length-append, concat, concat-append, if◌then◌else◌, inl, inr, ◌⊎◌,
}
use ferricstore_typescript.Common.Maps.{
  get, set, delete, or_zero, sum_values, map_values, Distinct, set-Distinct, delete-Distinct,
  map_values-set, map_values-delete, get-map_values, sum_values-set, sum_values-delete,
}
use ferricstore_typescript.Common.Results.{Result, ok, err, ◌>>=◌}
use ferricstore_typescript.Protocol.Frame.{ResponseFrame}
use ferricstore_typescript.Native.ChunkAssembler.{
  Assembler, Error, Key, Key-discrete, key_of, init, assemble, assert_limits, store_chunk, finish,
  release, has_more, is_absent,
}

abbrev pub size : List (List ℕ) → ℕ
size chunks = length (concat chunks)

pub record Inv (s : Assembler) : Type 0 where
  pub bytes_eq : s.bytes_by_key ≡ map_values size s.chunks
  pub frames_eq : s.frames_by_key ≡ map_values length s.chunks
  pub bytes_sum : s.total_bytes ≡ sum_values s.bytes_by_key
  pub frames_sum : s.total_frames ≡ sum_values s.frames_by_key
  pub distinct : Distinct Key-discrete s.chunks
  pub bytes_cap : s.total_bytes ≤ s.max_chunk_bytes
  pub frames_cap : s.total_frames ≤ s.max_chunk_frames

pub init-Inv : (b f r : ℕ) → Inv (init b f r)
init-Inv b f r = record {
  bytes_eq = refl;
  frames_eq = refl;
  bytes_sum = refl;
  frames_sum = refl;
  distinct = tt;
  bytes_cap = omega arith;
  frames_cap = omega arith;
}

pub release-Inv : (s : Assembler) (k : Key) (request : ℕ) → Inv s → Inv (release s k request)
unfolding release
release-Inv s k request v = record {
  bytes_eq =
      ap (delete Key-discrete k) v.bytes_eq ∙ sym (map_values-delete Key-discrete size k s.chunks);
  frames_eq =
      ap (delete Key-discrete k) v.frames_eq
      ∙ sym (map_values-delete Key-discrete length k s.chunks);
  bytes_sum = omega (arith, v.bytes_sum, sum_values-delete Key-discrete k s.bytes_by_key);
  frames_sum = omega (arith, v.frames_sum, sum_values-delete Key-discrete k s.frames_by_key);
  distinct = delete-Distinct Key-discrete k s.chunks v.distinct;
  bytes_cap = omega (arith, v.bytes_cap);
  frames_cap = omega (arith, v.frames_cap);
}

size-snoc :
    (previous : Option (List (List ℕ))) (body : List ℕ)
    → size (get_or previous [] ++ (body ∷ [])) ≡ or_zero (Option.map size previous) + length body
size-snoc none body = rw append-nil (omega arith)
size-snoc (some cs) body =
    rw (concat-append cs (body ∷ []), append-nil body) (length-append (concat cs) body)

length-snoc :
    (previous : Option (List (List ℕ))) (body : List ℕ)
    → length (get_or previous [] ++ (body ∷ [])) ≡ or_zero (Option.map length previous) + 1
length-snoc none body = omega arith
length-snoc (some cs) body = omega (arith, length-append cs (body ∷ []))

module _ (s : Assembler) (frame : ResponseFrame) (v : Inv s) where
  abbrev pub k : Key
  k = key_of frame

  abbrev pub previous : Option (List (List ℕ))
  previous = get Key-discrete k s.chunks

  pub get-bytes : get Key-discrete k s.bytes_by_key ≡ Option.map size previous
  get-bytes = rw (v.bytes_eq) (get-map_values Key-discrete size k s.chunks)

  pub get-frames : get Key-discrete k s.frames_by_key ≡ Option.map length previous
  get-frames = rw (v.frames_eq) (get-map_values Key-discrete length k s.chunks)

  abbrev pub new_bytes : ℕ
  new_bytes = or_zero (get Key-discrete k s.bytes_by_key) + length frame.body

  abbrev pub new_frames : ℕ
  new_frames = or_zero (get Key-discrete k s.frames_by_key) + 1

  pub size-stored : size (get_or previous [] ++ (frame.body ∷ [])) ≡ new_bytes
  size-stored = rw get-bytes (size-snoc previous frame.body)

  pub length-stored : length (get_or previous [] ++ (frame.body ∷ [])) ≡ new_frames
  length-stored = rw get-frames (length-snoc previous frame.body)

  abbrev pub stored : Assembler
  stored = store_chunk s frame new_bytes new_frames previous

  pub store_chunk-Inv :
      assert_limits s new_bytes new_frames (length frame.body) ≡ ok tt → Inv stored
  unfolding store_chunk assert_limits
  store_chunk-Inv h = record {
    bytes_eq =
        rw (map_values-set Key-discrete size, size-stored)
          (ap (set Key-discrete k new_bytes) v.bytes_eq);
    frames_eq =
        rw (map_values-set Key-discrete length, length-stored)
          (ap (set Key-discrete k new_frames) v.frames_eq);
    bytes_sum = omega (arith, v.bytes_sum, sum_values-set Key-discrete k new_bytes s.bytes_by_key);
    frames_sum =
        omega (arith, v.frames_sum, sum_values-set Key-discrete k new_frames s.frames_by_key);
    distinct =
        set-Distinct Key-discrete k (get_or previous [] ++ (frame.body ∷ [])) s.chunks v.distinct;
    bytes_cap = ground arith;
    frames_cap = ground arith;
  }

finish-Inv :
    (s : Assembler) (frame : ResponseFrame) (bytes : ℕ) (held : Option (List (List ℕ)))
    → Inv s
    → Inv (finish s frame bytes held).0
unfolding finish
finish-Inv s frame bytes none v = v
finish-Inv s frame bytes (some cs) v = release-Inv s (key_of frame) frame.request_id v

abbrev Reply : Type 0
Reply = Assembler × Option ResponseFrame

outcome :
    (alone more : Bool) (limits : Result Error (Unit {0})) (whole stored done out : Reply)
    → (if alone then ok whole else (limits >>= λ _. if more then ok stored else ok done)) ≡ ok out
    → ((alone ≡ true) × (whole ≡ out))
      ⊎ ((alone ≡ false) × (limits ≡ ok tt) × (more ≡ true) × (stored ≡ out))
      ⊎ ((alone ≡ false) × (limits ≡ ok tt) × (more ≡ false) × (done ≡ out))
outcome true more limits whole stored done out e = inl (refl, cc)
outcome false true (ok _) whole stored done out e = inr (inl (refl, refl, refl, cc))
outcome false false (ok _) whole stored done out e = inr (inr (refl, refl, refl, cc))
outcome false more (err x) whole stored done out e = cc

-- A frame that is taken is a whole response, or it is stored, or it ends a chunked response.
pub taken :
    (s : Assembler) (frame : ResponseFrame) (v : Inv s) (out : Reply)
    → assemble s frame ≡ ok out
    → ((not (has_more frame) && is_absent (previous s frame v) ≡ true) × ((s, some frame) ≡ out))
      ⊎ ((not (has_more frame) && is_absent (previous s frame v) ≡ false)
          × (assert_limits s (new_bytes s frame v) (new_frames s frame v) (length frame.body)
              ≡ ok tt)
          × (has_more frame ≡ true)
          × ((stored s frame v, none) ≡ out))
      ⊎ ((not (has_more frame) && is_absent (previous s frame v) ≡ false)
          × (assert_limits s (new_bytes s frame v) (new_frames s frame v) (length frame.body)
              ≡ ok tt)
          × (has_more frame ≡ false)
          × (finish
                (stored s frame v)
                frame
                (new_bytes s frame v)
                (get Key-discrete (key_of frame) (stored s frame v).chunks)
              ≡ out))
unfolding assemble
taken s frame v out e = outcome _ _ _ _ _ _ _ e

-- Every frame that is taken keeps the counters equal to what the held chunks add up to, and both
-- totals within their limits.
pub assemble-Inv :
    (s : Assembler) (frame : ResponseFrame) (s' : Assembler) (r : Option ResponseFrame)
    → Inv s
    → assemble s frame ≡ ok (s', r)
    → Inv s'
assemble-Inv s frame s' r v e = elim (taken s frame v (s', r) e) [
  | inl (_, h) ↦ subst (λ (p : Reply). Inv p.0) h v
  | inr (inl (_, l, _, h)) ↦ subst (λ (p : Reply). Inv p.0) h (store_chunk-Inv s frame v l)
  | inr (inr (_, l, _, h)) ↦
      subst (λ (p : Reply). Inv p.0) h
        (finish-Inv (stored s frame v) frame _ _ (store_chunk-Inv s frame v l))
]
