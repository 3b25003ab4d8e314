-- ===== src/Native/ReceiveBuffer/Appending.antt =====
-- Where `append` puts a chunk of the socket.
use Prim.Native.Nat.{ℕ, ◌≤◌, ◌<◌}
use mathlib.Core.Path.{◌≡◌, refl, sym, ap, ◌∙◌, subst}
use mathlib.Core.Option.{Option, none, some}
use mathlib.Core.List.{List, [], ◌∷◌, ◌++◌, append-nil, append_assoc}
use native.Mathlib.Omega.{arith}
use ferricstore_typescript.Common.{
  All, concat, concat-append, drop-append_le, length, length-append, length-take, length-drop, take,
  drop, ltb, inl, inr, ◌⊎◌, Bool-cases, drop_all, take-append_le, take-append-drop, ltb→lt,
  ltb_false→le,
}
use ferricstore_typescript.Common.Words.{ℤ}
use ferricstore_typescript.Protocol.Frame.{read_uint}
use ferricstore_typescript.Protocol.Frame.Prefix.{checks, read_uint-take, checks-take}
use ferricstore_typescript.Native.ReceiveBuffer.{ReceiveBuffer, FrameAssembly}
use ferricstore_typescript.Native.ReceiveBuffer.Paging.{
  assembly_append-Appended, joined, Appended, received-Appended,
}
use ferricstore_typescript.Native.ReceiveBuffer.Reading.{unread, IsRead}
use ferricstore_typescript.Native.ReceiveBuffer.Frames.{
  assembled, stream, Pending, PendingIf, IsValid,
}
use ferricstore_typescript.Native.ReceiveBuffer.{append_by, push_rest, assembly_append}
use ferricstore_typescript.Native.ReceiveBuffer.Reading.{NonEmpty, Fits}

drop-snoc :
    (n : ℕ) (cs : List (List ℕ)) (c : List ℕ)
    → n ≤ length cs
    → drop n (cs ++ (c ∷ [])) ≡ drop n cs ++ (c ∷ [])
drop-snoc n cs c h = drop-append_le n cs (c ∷ []) h

Fits-snoc :
    (cs : List (List ℕ)) (c : List ℕ) (offset : ℕ)
    → NonEmpty c
    → Fits cs offset
    → Fits (cs ++ (c ∷ [])) offset
Fits-snoc [] c offset h f = omega arith
Fits-snoc (x ∷ cs) c offset h f = f

All-snoc :
    (cs : List (List ℕ)) (c : List ℕ) → NonEmpty c → All NonEmpty cs → All NonEmpty (cs ++ (c ∷ []))
All-snoc [] c h a = (h, tt)
All-snoc (x ∷ cs) c h (p, a) = (p, All-snoc cs c h a)

drop-concat-snoc :
    (cs : List (List ℕ)) (c : List ℕ) (offset : ℕ)
    → Fits cs offset
    → drop offset (concat (cs ++ (c ∷ []))) ≡ drop offset (concat cs) ++ c
drop-concat-snoc [] c offset f = rw (f, append-nil) refl
drop-concat-snoc (x ∷ cs) c offset f =
    rw (concat-append cs (c ∷ []), append-nil, ← append_assoc x (concat cs) c)
      (drop-append_le offset (x ++ concat cs) c (omega (arith, length-append x (concat cs))))

record Pushed (b : ReceiveBuffer) (more : List ℕ) (b' : ReceiveBuffer) : Type 0 where
  valid : IsRead b'
  bytes : unread b' ≡ unread b ++ more
  assembly : b'.assembly ≡ b.assembly

push_rest-Pushed :
    (b : ReceiveBuffer) (chunk : List ℕ) (n : ℕ)
    → IsRead b
    → Pushed b (drop n chunk) (push_rest b chunk n)
push_rest-Pushed b chunk n v = elim (Bool-cases (ltb n (length chunk))) [
  | inl e ↦
      let c : List ℕ = drop n chunk in
      let z : NonEmpty c = omega (arith, length-drop n chunk, ltb→lt _ _ e) in
      let d = drop-snoc b.chunk_index b.chunks c v.index_le in
      let u : drop b.chunk_offset (concat (drop b.chunk_index (b.chunks ++ (c ∷ []))))
          ≡ unread b ++ c =
        rw d (drop-concat-snoc (drop b.chunk_index b.chunks) c b.chunk_offset v.fits) in
      unfold push_rest in
      rw e (record {
        valid = record {
          full = All-snoc b.chunks c z v.full;
          index_le = omega (arith, v.index_le, length-append b.chunks (c ∷ []));
          fits = rw d (Fits-snoc (drop b.chunk_index b.chunks) c b.chunk_offset z v.fits);
          buffered_eq = omega (arith, v.buffered_eq, ap length u, length-append (unread b) c);
        };
        bytes = u;
        assembly = refl;
      })
  | inr e ↦
      unfold push_rest in
      rw (e, drop_all n chunk (ltb_false→le _ _ e))
        (record { valid = v; bytes = sym (append-nil _); assembly = refl })
]

-- The header of the frame that is being put together does not change.
more_received :
    (limit : Option ℤ) (a a' : FrameAssembly) (xs tail tail' : List ℕ)
    → Pending limit a tail
    → Appended a xs a'
    → (a'.received_bytes < a'.frame_length → tail' ≡ [])
    → Pending limit a' tail'
more_received limit a a' xs tail tail' p r empty_tail =
    let j : joined a'.pages ≡ joined a.pages ++ xs = r.joined_eq in
    let same : take 24 (joined a'.pages) ≡ take 24 (joined a.pages) =
      rw j (take-append_le 24 (joined a.pages) xs p.header) in
    record {
      good = r.good;
      header = omega (arith, ap length j, length-append (joined a.pages) xs, p.header);
      checked =
          sym (checks-take 24 (joined a'.pages) limit (omega arith))
          ∙ ap (λ (h : List ℕ). checks h limit) same
          ∙ checks-take 24 (joined a.pages) limit (omega arith)
          ∙ p.checked;
      length_eq = omega (
        arith,
        r.length_eq,
        p.length_eq,
        ap (read_uint 4 20) same,
        read_uint-take 4 20 24 (joined a'.pages) (omega arith),
        read_uint-take 4 20 24 (joined a.pages) (omega arith),
      );
      no_tail = empty_tail;
    }

-- The chunk is split where the frame ends; nothing was buffered behind an incomplete frame.
split_chunk :
    (held more tail chunk : List ℕ) (n : ℕ)
    → (tail ≡ []) ⊎ (n ≡ 0)
    → (held ++ take n chunk) ++ (tail ++ drop n chunk) ≡ (held ++ tail) ++ chunk
split_chunk held more tail chunk n (inl e) =
    rw
      (
        e,
        append-nil held,
        append_assoc held (take n chunk) (drop n chunk),
        take-append-drop n chunk,
      )
      refl
split_chunk held more tail chunk n (inr e) =
    rw (e, append-nil held) (sym (append_assoc held tail chunk))

append_to :
    (limit : Option ℤ) (b : ReceiveBuffer) (a : FrameAssembly) (chunk : List ℕ)
    → IsRead b
    → Pending limit a (unread b)
    → IsValid limit (append_by (some a) b chunk)
      × (stream (append_by (some a) b chunk) ≡ (joined a.pages ++ unread b) ++ chunk)
append_to limit b a chunk v p =
    let (n, r) = assembly_append-Appended a chunk p.good in
    let taken : FrameAssembly × ℕ = assembly_append a chunk in
    let b1 : ReceiveBuffer = record b { assembly = some taken.0 } in
    let h = push_rest-Pushed b1 chunk taken.1 (record {
      full = v.full;
      index_le = v.index_le;
      fits = v.fits;
      buffered_eq = v.buffered_eq;
    }) in
    let here : (push_rest b1 chunk taken.1).assembly ≡ some taken.0 = h.assembly in
    let received = received-Appended a (take taken.1 chunk) taken.0 p.good r in
    let bytes : unread (push_rest b1 chunk taken.1) ≡ unread b ++ drop taken.1 chunk = h.bytes in
    let size = length-take taken.1 chunk in
    let split : (unread b ≡ []) ⊎ (taken.1 ≡ 0) =
      elim (Bool-cases (ltb a.received_bytes a.frame_length)) [
        | inl e ↦ inl (p.no_tail (ltb→lt _ _ e))
        | inr e ↦ inr (omega (arith, n, ltb_false→le _ _ e))
      ] in
    let after =
      more_received limit a taken.0 (take taken.1 chunk) (unread b)
        (unread (push_rest b1 chunk taken.1)) p r
        (λ lt.
          bytes
          ∙ rw
              (
                p.no_tail (omega (arith, received, r.length_eq)),
                drop_all taken.1 chunk (omega (arith, n, received, size, r.length_eq)),
              )
              refl) in
    unfold append_by in
    (
      record {
        read = h.valid;
        pending =
            subst
              (λ (o : Option FrameAssembly).
                PendingIf limit o (unread (push_rest b1 chunk taken.1)))
              (sym here) after;
      },
      ap (λ (o : Option FrameAssembly). assembled o ++ unread (push_rest b1 chunk taken.1)) here
          ∙ rw (bytes, r.joined_eq)
              (split_chunk (joined a.pages) [] (unread b) chunk taken.1 split),
    )

-- Bytes that come in go to the end of the stream.
pub append_by-stream :
    (limit : Option ℤ) (b : ReceiveBuffer) (o : Option FrameAssembly) (chunk : List ℕ)
    → b.assembly ≡ o
    → IsRead b
    → PendingIf limit o (unread b)
    → IsValid limit (append_by o b chunk)
      × (stream (append_by o b chunk) ≡ (assembled o ++ unread b) ++ chunk)
append_by-stream limit b none chunk e v p =
    let h = push_rest-Pushed b chunk 0 v in
    let here : (push_rest b chunk 0).assembly ≡ none = h.assembly ∙ e in
    unfold append_by in
    (
      record {
        read = h.valid;
        pending =
            subst (λ (o : Option FrameAssembly). PendingIf limit o (unread (push_rest b chunk 0)))
              (sym here) tt;
      },
      ap (λ (o : Option FrameAssembly). assembled o ++ unread (push_rest b chunk 0)) here ∙ h.bytes,
    )
append_by-stream limit b (some a) chunk e v p = append_to limit b a chunk v p
