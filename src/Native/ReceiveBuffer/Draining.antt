-- ===== src/Native/ReceiveBuffer/Draining.antt =====
-- `read`, `compact` and `drainInto` on the stream of unread bytes.
use Prim.Native.Nat.{ℕ, zero, suc, ◌+◌, ◌-◌, ◌*◌, ◌≤◌, ◌<◌}
use mathlib.Core.Path.{◌≡◌, refl, sym, ap, ◌∙◌, subst}
use mathlib.Core.Bool.{false, ◌&&◌}
use mathlib.Core.Option.{some}
use mathlib.Core.List.{List, [], ◌∷◌, ◌++◌, append-nil, append_assoc}
use native.Mathlib.Omega.{arith}
use ferricstore_typescript.Common.{
  length, length-append, length-drop, take, drop, drop-drop, leb, ◌==◌, inl, inr, Bool-cases,
  drop_all, take_all, concat, drop-append_le, get_elem?, ==_iff, drop-get_elem?, drop_past_end,
  Option-cases, ◌≢◌,
}
use ferricstore_typescript.Common.Results.{Result, ok}
use ferricstore_typescript.Native.ReceiveBuffer.{
  ReceiveBuffer, FrameAssembly, Error, peek, compact, read, drain_loop, drain_into, assembly_append,
}
use ferricstore_typescript.Native.ReceiveBuffer.Paging.{
  joined, IsGood, Appended, received-Appended, room, assembly_append-Appended,
}
use ferricstore_typescript.Native.ReceiveBuffer.Reading.{
  Fits, Fits-zero, All-drop, unread, IsRead, peek_at-take, advance-Advances,
}

-- Two buffers with the same unread bytes, both well formed.
pub record SameBytes (b b' : ReceiveBuffer) : Type 0 where
  pub valid : IsRead b'
  pub bytes : unread b' ≡ unread b
  pub assembly : b'.assembly ≡ b.assembly

at_end : (b : ReceiveBuffer) → b.chunk_index ≡ length b.chunks → unread b ≡ []
at_end b e =
    rw (e, drop_all (length b.chunks) b.chunks (omega arith))
      (drop_all b.chunk_offset [] (omega arith))

compact-SameBytes : (b : ReceiveBuffer) → IsRead b → SameBytes b (compact b)
compact-SameBytes b v = elim (Bool-cases (b.chunk_index == length b.chunks)) [
  | inl e ↦
      unfold compact in
      rw e (record {
        valid = record {
          full = tt;
          index_le = omega arith;
          fits = refl;
          buffered_eq = v.buffered_eq ∙ ap length (at_end b ((==_iff _ _).0 e));
        };
        bytes = sym (at_end b ((==_iff _ _).0 e));
        assembly = refl;
      })
  | inr e ↦
      elim (Bool-cases (leb 1024 b.chunk_index && leb (length b.chunks) (b.chunk_index * 2))) [
        | inl f ↦
            unfold compact in
            rw (e, f)
              (record {
                valid = record {
                  full = All-drop b.chunk_index b.chunks v.full;
                  index_le = omega arith;
                  fits = v.fits;
                  buffered_eq = v.buffered_eq;
                };
                bytes = refl;
                assembly = refl;
              })
        | inr f ↦ unfold compact in rw (e, f) (record { valid = v; bytes = refl; assembly = refl })
      ]
]

-- What is left after `n` bytes have been read.
pub record Reads (b : ReceiveBuffer) (n : ℕ) : Type 0 where
  pub after : ReceiveBuffer
  pub runs : read b n ≡ ok (after, take n (unread b))
  pub valid : IsRead after
  pub bytes : unread after ≡ drop n (unread b)
  pub assembly : after.assembly ≡ b.assembly

pub peek-take :
    (b : ReceiveBuffer) (n : ℕ)
    → IsRead b
    → 0 < n
    → n ≤ b.buffered_bytes
    → peek b n ≡ ok (take n (unread b))
unfolding peek
peek-take b n v p l =
    peek_at-take (drop b.chunk_index b.chunks) b.chunk_offset n
      (All-drop b.chunk_index b.chunks v.full) v.fits p (omega (arith, v.buffered_eq))

-- `read` takes the next `n` bytes of the stream, whatever the chunks they came in.
pub read-Reads : (b : ReceiveBuffer) (n : ℕ) → IsRead b → 0 < n → n ≤ b.buffered_bytes → Reads b n
read-Reads b n v p l =
    let a =
      advance-Advances (drop b.chunk_index b.chunks) b.chunk_index b.chunk_offset n
        (All-drop b.chunk_index b.chunks v.full) v.fits (omega (arith, v.buffered_eq)) in
    let b' : ReceiveBuffer = record b {
      chunk_index = b.chunk_index + a.moved;
      chunk_offset = a.offset';
      buffered_bytes = b.buffered_bytes - n;
    } in
    let d : drop (b.chunk_index + a.moved) b.chunks ≡ drop a.moved (drop b.chunk_index b.chunks) =
      sym (drop-drop a.moved b.chunk_index b.chunks) in
    let bytes' : unread b' ≡ drop n (unread b) = rw d a.rest in
    let same = compact-SameBytes b' (record {
      full = v.full;
      index_le = omega (arith, a.moved_le, v.index_le, length-drop b.chunk_index b.chunks);
      fits = rw d a.fits;
      buffered_eq = rw bytes' (omega (arith, v.buffered_eq, length-drop n (unread b)));
    }) in
    record {
      after = compact b';
      runs = unfold read in rw (peek-take b n v p l, a.runs) refl;
      valid = same.valid;
      bytes = same.bytes ∙ bytes';
      assembly = same.assembly;
    }

nothing : {A : Type 0} (xs : List A) → length xs ≡ 0 → xs ≡ []
nothing [] e = refl
nothing (x ∷ xs) e = absurd (omega arith)

-- Everything unread has gone to the assembly.
pub record Drains (b : ReceiveBuffer) (a : FrameAssembly)
    (r : Result Error (ReceiveBuffer × FrameAssembly)) : Type 0 where
  pub after : ReceiveBuffer
  pub filled : FrameAssembly
  pub runs : r ≡ ok (after, filled)
  pub valid : IsRead after
  pub bytes : unread after ≡ []
  pub assembly : after.assembly ≡ b.assembly
  pub appended : Appended a (unread b) filled

Drains-nothing :
    (b : ReceiveBuffer) (a : FrameAssembly)
    → IsRead b
    → IsGood a
    → unread b ≡ []
    → Drains b a (ok (b, a))
Drains-nothing b a v g e = record {
  after = b;
  filled = a;
  runs = refl;
  valid = v;
  bytes = e;
  assembly = refl;
  appended = record { good = g; joined_eq = rw (e, append-nil) refl; length_eq = refl };
}

-- The state after the chunk at the cursor has gone to the assembly whole.
abbrev moved_on : ReceiveBuffer → ℕ → ReceiveBuffer
moved_on b n = record b {
  buffered_bytes = b.buffered_bytes - n;
  chunk_index = b.chunk_index + 1;
  chunk_offset = 0;
}

-- What the chunk `c` at the cursor says of the buffer.
record AtChunk (b : ReceiveBuffer) (c : List ℕ) : Type 0 where
  inside : b.chunk_offset < length c
  bytes : unread b ≡ drop b.chunk_offset c ++ unread (moved_on b (length c - b.chunk_offset))
  valid : IsRead (moved_on b (length c - b.chunk_offset))

at_chunk :
    (b : ReceiveBuffer) (c : List ℕ)
    → IsRead b
    → get_elem? b.chunks b.chunk_index ≡ some c
    → AtChunk b c
at_chunk b c v e =
    let (d, l) = drop-get_elem? b.chunk_index b.chunks c e in
    let inside : b.chunk_offset < length c =
      subst (λ (cs : List (List ℕ)). Fits cs b.chunk_offset) d v.fits in
    let rest : List (List ℕ) = drop (b.chunk_index + 1) b.chunks in
    let bytes : unread b ≡ drop b.chunk_offset c ++ concat rest =
      rw d (drop-append_le b.chunk_offset c (concat rest) (omega arith)) in
    record {
      inside = inside;
      bytes = bytes;
      valid = record {
        full = v.full;
        index_le = omega (arith, l);
        fits = Fits-zero rest (All-drop (b.chunk_index + 1) b.chunks v.full);
        buffered_eq = omega (
          arith,
          v.buffered_eq,
          ap length bytes,
          length-append (drop b.chunk_offset c) (concat rest),
          length-drop b.chunk_offset c,
        );
      };
    }

Drains-chunk :
    (b : ReceiveBuffer) (a a' : FrameAssembly) (c : List ℕ)
    (r : Result Error (ReceiveBuffer × FrameAssembly))
    → AtChunk b c
    → Appended a (drop b.chunk_offset c) a'
    → Drains (moved_on b (length c - b.chunk_offset)) a' r
    → Drains b a r
Drains-chunk b a a' c r h p d = record {
  after = d.after;
  filled = d.filled;
  runs = d.runs;
  valid = d.valid;
  bytes = d.bytes;
  assembly = d.assembly;
  appended = record {
    good = d.appended.good;
    joined_eq =
        d.appended.joined_eq ∙ rw (p.joined_eq, h.bytes) (append_assoc (joined a.pages) _ _);
    length_eq = d.appended.length_eq ∙ p.length_eq;
  };
}

pub not_equal : (m n : ℕ) → m ≢ n → (m == n) ≡ false
not_equal m n h = ground arith

drain_loop-Drains :
    (fuel : ℕ) (b : ReceiveBuffer) (a : FrameAssembly)
    → IsRead b
    → IsGood a
    → length (unread b) < room a
    → b.buffered_bytes ≤ fuel
    → Drains b a (drain_loop fuel b a)
unfolding drain_loop
drain_loop-Drains zero b a v g l f =
    Drains-nothing b a v g (nothing (unread b) (omega (arith, v.buffered_eq)))
drain_loop-Drains (suc fuel) b a v g l f = elim (Option-cases (get_elem? b.chunks b.chunk_index)) [
  | inl e ↦
      let n : unread b ≡ [] =
        rw (drop_past_end b.chunk_index b.chunks e) (drop_all b.chunk_offset [] (omega arith)) in
      let z : b.buffered_bytes ≡ 0 = v.buffered_eq ∙ ap length n in
      rw (e, drain_loop, (==_iff _ _).1 z) (Drains-nothing b a v g n)
  | inr (c, e) ↦
      let h = at_chunk b c v e in
      let (n, p) = assembly_append-Appended a (drop b.chunk_offset c) g in
      let k : ℕ = length c - b.chunk_offset in
      let size : length (unread b) ≡ k + length (unread (moved_on b k)) = omega (
        arith,
        ap length h.bytes,
        length-append (drop b.chunk_offset c) (unread (moved_on b k)),
        length-drop b.chunk_offset c,
      ) in
      let m : (assembly_append a (drop b.chunk_offset c)).1 ≡ k =
        omega (arith, n, length-drop b.chunk_offset c) in
      let p' : Appended a (drop b.chunk_offset c) (assembly_append a (drop b.chunk_offset c)).0 =
        rw (m, take_all k (drop b.chunk_offset c) (omega (arith, length-drop b.chunk_offset c))) at
          p in
      rw
        (
          e,
          drain_loop,
          m,
          not_equal b.buffered_bytes 0 (omega (arith, v.buffered_eq, size, h.inside)),
          not_equal k 0 (omega (arith, h.inside)),
          (==_iff (b.chunk_offset + k) (length c)).1 (omega (arith, h.inside)),
        )
        (Drains-chunk b a _ c _ h p' (
          drain_loop-Drains fuel (moved_on b k) _ h.valid p'.good
            (omega (
              arith,
              received-Appended a (drop b.chunk_offset c) _ g p',
              p'.length_eq,
              size,
              length-drop b.chunk_offset c,
              h.inside,
            ))
            (omega (arith, h.inside))))
]

-- `drainInto` moves every unread byte to an assembly that lacks more than those.
pub drain_into-Drains :
    (b : ReceiveBuffer) (a : FrameAssembly)
    → IsRead b
    → IsGood a
    → length (unread b) < room a
    → Drains b a (drain_into b a)
unfolding drain_into
drain_into-Drains b a v g l =
    let d = drain_loop-Drains b.buffered_bytes b a v g l (omega arith) in
    let same = compact-SameBytes d.after d.valid in
    record {
      after = compact d.after;
      filled = d.filled;
      runs = rw d.runs refl;
      valid = same.valid;
      bytes = same.bytes ∙ d.bytes;
      assembly = same.assembly ∙ d.assembly;
      appended = d.appended;
    }
