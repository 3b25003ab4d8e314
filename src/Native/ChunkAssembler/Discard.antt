-- ===== src/Native/ChunkAssembler/Discard.antt =====
-- What `discardRequest` gives back when a request has timed out.
use Prim.Native.Nat.{ℕ, ◌+◌}
use mathlib.Core.Path.{◌≡◌, refl, subst, ◌∙◌}
use mathlib.Core.Option.{Option, none, get_or}
use mathlib.Core.List.{List, [], ◌∷◌}
use native.Mathlib.Decide.{ℕ_discrete}
use native.Mathlib.Omega.{arith}
use ferricstore_typescript.Common.{inl, inr, Option-cases, Bool-cases, if◌then◌else◌}
use ferricstore_typescript.Common.Maps.{
  has, delete, get-delete_self, get-delete_ne, get, or_zero, sum_values-delete,
}
use ferricstore_typescript.Native.ChunkAssembler.{
  Assembler, Key, Key-discrete, release, discard_keys, discard_request,
}
use ferricstore_typescript.Native.ChunkAssembler.Invariant.{Inv, release-Inv}

abbrev Accounts : Assembler → ℕ → ℕ → Assembler × ℕ × ℕ → Type 0
Accounts s bytes frames (s', b, f) =
    Inv s'
    × (s'.total_bytes + b ≡ s.total_bytes + bytes)
    × (s'.total_frames + f ≡ s.total_frames + frames)

release_bytes :
    (s : Assembler) (k : Key) (request : ℕ)
    → Inv s
    → ((release s k request).total_bytes + or_zero (get Key-discrete k s.bytes_by_key)
        ≡ s.total_bytes)
      × ((release s k request).total_frames + or_zero (get Key-discrete k s.frames_by_key)
          ≡ s.total_frames)
unfolding release
release_bytes s k request v =
    let b = sum_values-delete Key-discrete k s.bytes_by_key in
    let f = sum_values-delete Key-discrete k s.frames_by_key in
    (omega (arith, v.bytes_sum, b), omega (arith, v.frames_sum, f))

discard_keys-Accounts :
    (request : ℕ) (ks : List Key) (s : Assembler) (bytes frames : ℕ)
    → Inv s
    → Accounts s bytes frames (discard_keys request ks s bytes frames)
unfolding discard_keys
discard_keys-Accounts request [] s bytes frames v = (v, refl, refl)
discard_keys-Accounts request (k ∷ ks) s bytes frames v =
    let (b, f) = release_bytes s k request v in
    let (v', e, h) =
      discard_keys-Accounts request ks (release s k request)
        (bytes + or_zero (get Key-discrete k s.bytes_by_key))
        (frames + or_zero (get Key-discrete k s.frames_by_key)) (release-Inv s k request v) in
    (v', omega (arith, b, e), omega (arith, f, h))

-- What is held under a key when the keys of `ks` have been given up.
abbrev pub held_without : List Key → Assembler → Key → Option (List (List ℕ))
held_without ks s k = if has Key-discrete k ks then none else get Key-discrete k s.chunks

release_chunks :
    (s : Assembler) (j k : Key) (request : ℕ) (ks : List Key)
    → Inv s
    → held_without ks (release s j request) k ≡ held_without (j ∷ ks) s k
unfolding release
release_chunks s j k request ks v = elim (Key-discrete j k) [
  | yes e ↦
      (let gone = get-delete_self Key-discrete j s.chunks v.distinct in
        let there =
          subst (λ i. get Key-discrete i (delete Key-discrete j s.chunks) ≡ none) e gone in
        elim (Bool-cases (has Key-discrete k ks)) [ inl f ↦ ground arith | inr f ↦ ground arith ])
  | no e ↦ (let same = get-delete_ne Key-discrete j k s.chunks e in ground arith)
]

discard_keys-held :
    (request : ℕ) (ks : List Key) (s : Assembler) (bytes frames : ℕ) (k : Key)
    → Inv s
    → get Key-discrete k (discard_keys request ks s bytes frames).0.chunks ≡ held_without ks s k
unfolding discard_keys
discard_keys-held request [] s bytes frames k v = refl
discard_keys-held request (j ∷ ks) s bytes frames k v =
    discard_keys-held request ks (release s j request)
      (bytes + or_zero (get Key-discrete j s.bytes_by_key))
      (frames + or_zero (get Key-discrete j s.frames_by_key)) k (release-Inv s j request v)
    ∙ release_chunks s j k request ks v

-- Where the counters agree with the chunks held, what `discardRequest` returns is what the totals
-- lose, to the byte and to the frame. The chunks under the keys that are noted for the request are
-- gone, those under all other keys stay, and the counters agree with the chunks again.
pub discard_request_accounts :
    (s : Assembler) (request : ℕ)
    → Inv s
    → let (s', bytes, frames) = discard_request s request in
      Inv s'
      × (s'.total_bytes + bytes ≡ s.total_bytes)
      × (s'.total_frames + frames ≡ s.total_frames)
      × ((k : Key)
          → get Key-discrete k s'.chunks
            ≡ held_without (get_or (get ℕ_discrete request s.keys_by_request) []) s k)
unfolding discard_request
discard_request_accounts s request v =
    elim (Option-cases (get ℕ_discrete request s.keys_by_request)) [
      | inl e ↦ rw (e, discard_request) (v, omega arith, omega arith, λ k. refl)
      | inr (ks, e) ↦
          rw (e, discard_request)
            (let (v', b, f) = discard_keys-Accounts request ks s 0 0 v in
              (v', omega (arith, b), omega (arith, f), λ k. discard_keys-held request ks s 0 0 k v))
    ]
