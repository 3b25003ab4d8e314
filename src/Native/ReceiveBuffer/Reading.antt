-- ===== src/Native/ReceiveBuffer/Reading.antt =====
-- The chunk list of `NativeReceiveBuffer` read as one stream of bytes.
use Prim.Native.Nat.{ℕ, zero, suc, ◌+◌, ◌-◌, ◌≤◌, ◌<◌, min}
use mathlib.Core.Path.{◌≡◌, refl, sym, ap, ◌∙◌}
use mathlib.Core.List.{List, [], ◌∷◌, ◌++◌}
use native.Mathlib.Omega.{arith}
use ferricstore_typescript.Common.{
  length, length-append, length-drop, take, drop, drop-drop, leb, ◌==◌, inl, inr, Bool-cases, All,
  concat, drop-append_le, take-append_split, take-append_le, drop-append_ge, leb→le,
}
use ferricstore_typescript.Common.Results.{ok}
use ferricstore_typescript.Native.ReceiveBuffer.{ReceiveBuffer, copy_chunks, peek_at, advance}

abbrev pub NonEmpty : List ℕ → Type 0
NonEmpty c = 0 < length c

-- The offset lies inside the first chunk; with no chunk left it is 0.
abbrev pub Fits : List (List ℕ) → ℕ → Type 0
Fits [] offset = offset ≡ 0
Fits (c ∷ cs) offset = offset < length c

abbrev pub unread : ReceiveBuffer → List ℕ
unread b = drop b.chunk_offset (concat (drop b.chunk_index b.chunks))

pub record IsRead (b : ReceiveBuffer) : Type 0 where
  pub full : All NonEmpty b.chunks
  pub index_le : b.chunk_index ≤ length b.chunks
  pub fits : Fits (drop b.chunk_index b.chunks) b.chunk_offset
  pub buffered_eq : b.buffered_bytes ≡ length (unread b)

pub Fits-zero : (cs : List (List ℕ)) → All NonEmpty cs → Fits cs 0
Fits-zero [] h = refl
Fits-zero (c ∷ cs) (h, _) = h

pub All-drop : (n : ℕ) (cs : List (List ℕ)) → All NonEmpty cs → All NonEmpty (drop n cs)
All-drop zero cs h = h
All-drop (suc n) [] h = tt
All-drop (suc n) (c ∷ cs) (_, h) = All-drop n cs h

-- The first chunk's part of a read of `n` bytes, and the rest.
take-split :
    (c : List ℕ) (cs : List ℕ) (offset n : ℕ)
    → offset ≤ length c
    → take n (drop offset (c ++ cs))
      ≡ take (min n (length c - offset)) (drop offset c) ++ take (n - min n (length c - offset)) cs
take-split c cs offset n h =
    rw (drop-append_le offset c cs h, ← length-drop offset c)
      (take-append_split n (drop offset c) cs)

copy_chunks-take :
    (cs : List (List ℕ)) (offset n : ℕ)
    → All NonEmpty cs
    → Fits cs offset
    → n ≤ length (drop offset (concat cs))
    → copy_chunks cs offset n ≡ ok (take n (drop offset (concat cs)))
unfolding copy_chunks
copy_chunks-take [] offset zero h f l = refl
copy_chunks-take [] offset (suc n) h f l = absurd (omega (arith, length-drop {A = ℕ} offset []))
copy_chunks-take (c ∷ cs) offset zero h f l = refl
copy_chunks-take (c ∷ cs) offset (suc n) (h, hs) f l =
    let k : ℕ = min (suc n) (length c - offset) in
    rw
      (copy_chunks-take cs 0 (suc n - k) hs (Fits-zero cs hs)
        (omega (arith, length-drop offset (c ++ concat cs), length-append c (concat cs))))
      (ap ok (sym (take-split c (concat cs) offset (suc n) (omega arith))))

pub peek_at-take :
    (cs : List (List ℕ)) (offset n : ℕ)
    → All NonEmpty cs
    → Fits cs offset
    → 0 < n
    → n ≤ length (drop offset (concat cs))
    → peek_at cs offset n ≡ ok (take n (drop offset (concat cs)))
unfolding peek_at
peek_at-take [] offset n h f p l = absurd (omega (arith, length-drop {A = ℕ} offset []))
peek_at-take (c ∷ cs) offset n (h, hs) f p l = elim (Bool-cases (leb n (length c - offset))) [
  | inl e ↦
      rw
        (
          e,
          drop-append_le offset c (concat cs) (omega arith),
          take-append_le n (drop offset c) (concat cs)
              (omega (arith, length-drop offset c, leb→le _ _ e)),
        )
        refl
  | inr e ↦ rw e (copy_chunks-take (c ∷ cs) offset n (h, hs) f l)
]

-- The cursor after `n` more bytes: `moved` chunks on.
pub record Advances (cs : List (List ℕ)) (index offset n : ℕ) : Type 0 where
  pub moved : ℕ
  pub moved_le : moved ≤ length cs
  pub offset' : ℕ
  pub runs : advance cs index offset n ≡ ok (index + moved, offset')
  pub rest : drop offset' (concat (drop moved cs)) ≡ drop n (drop offset (concat cs))
  pub fits : Fits (drop moved cs) offset'

stay :
    (cs : List (List ℕ)) (index offset : ℕ)
    → Fits cs offset
    → advance cs index offset 0 ≡ ok (index, offset)
    → Advances cs index offset 0
stay cs index offset f e = record {
  moved = 0;
  moved_le = omega arith;
  offset' = offset;
  runs = let z : index + 0 ≡ index = omega arith in rw z e;
  rest = refl;
  fits = f;
}

-- The rest of the first chunk is read, and `n` bytes more.
past_chunk :
    (c : List ℕ) (cs : List (List ℕ)) (index offset n m : ℕ)
    → offset < length c
    → n ≡ length c - offset + m
    → advance (c ∷ cs) index offset n ≡ advance cs (index + 1) 0 m
    → Advances cs (index + 1) 0 m
    → Advances (c ∷ cs) index offset n
past_chunk c cs index offset n m f e run a = record {
  moved = suc a.moved;
  moved_le = omega (arith, a.moved_le);
  offset' = a.offset';
  runs = let z : index + 1 + a.moved ≡ index + suc a.moved = omega arith in run ∙ a.runs ∙ rw z;
  rest =
      a.rest
      ∙ rw
          (
            e,
            drop-append_le offset c (concat cs) (omega arith),
            drop-append_ge (length c - offset + m) (drop offset c) (concat cs)
                (omega (arith, length-drop offset c)),
          )
          (let z : m ≡ length c - offset + m - length (drop offset c) =
              omega (arith, length-drop offset c) in
            ap (λ (k : ℕ). drop k (concat cs)) z);
  fits = a.fits;
}

-- The read ends inside the first chunk.
inside_chunk :
    (c : List ℕ) (cs : List (List ℕ)) (index offset n : ℕ)
    → offset + n < length c
    → advance (c ∷ cs) index offset n ≡ ok (index, offset + n)
    → Advances (c ∷ cs) index offset n
inside_chunk c cs index offset n f e = record {
  moved = 0;
  moved_le = omega arith;
  offset' = offset + n;
  runs = let z : index + 0 ≡ index = omega arith in rw z e;
  rest = sym (drop-drop n offset (c ++ concat cs));
  fits = f;
}

pub advance-Advances :
    (cs : List (List ℕ)) (index offset n : ℕ)
    → All NonEmpty cs
    → Fits cs offset
    → n ≤ length (drop offset (concat cs))
    → Advances cs index offset n
unfolding advance
advance-Advances [] index offset zero h f l = stay [] index offset f refl
advance-Advances [] index offset (suc n) h f l =
    absurd (omega (arith, length-drop {A = ℕ} offset []))
advance-Advances (c ∷ cs) index offset zero h f l = stay (c ∷ cs) index offset f refl
advance-Advances (c ∷ cs) index offset (suc n) (h, hs) f l =
    let k : ℕ = min (suc n) (length c - offset) in
    elim (Bool-cases (offset + k == length c)) [
      | inl e ↦
          let k_eq : k ≡ length c - offset = ground arith in
          past_chunk c cs index offset (suc n) (suc n - k) f (omega arith) (rw e) (
            advance-Advances cs (index + 1) 0 (suc n - k) hs (Fits-zero cs hs)
              (omega (arith, length-drop offset (c ++ concat cs), length-append c (concat cs))))
      | inr e ↦
          let k_eq : k ≡ suc n = ground arith in
          inside_chunk c cs index offset (suc n) (ground arith) (rw (e, k_eq))
    ]
