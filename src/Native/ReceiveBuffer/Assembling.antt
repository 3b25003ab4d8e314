-- ===== src/Native/ReceiveBuffer/Assembling.antt =====
-- `nextFrame` while a frame is being put together.
use Prim.Native.Nat.{ℕ, ◌≤◌, ◌<◌}
use mathlib.Core.Path.{◌≡◌, refl, sym, ap, ◌∙◌, subst}
use mathlib.Core.Option.{Option, none, some}
use mathlib.Core.List.{List, ◌++◌}
use native.Mathlib.Omega.{arith}
use ferricstore_typescript.Common.{
  length, length-append, take, drop, take-append, drop-append, take-append_le, ==_iff,
}
use ferricstore_typescript.Common.Words.{ℤ}
use ferricstore_typescript.Common.Results.{ok}
use ferricstore_typescript.Protocol.Frame.{read_uint, try_decode_frame}
use ferricstore_typescript.Protocol.Frame.Prefix.{checks, frame_size, read_uint-take, checks-take}
use ferricstore_typescript.Native.ReceiveBuffer.{
  ReceiveBuffer, FrameAssembly, next_by, next_frame, next_assembled, assembly_finish,
}
use ferricstore_typescript.Native.ReceiveBuffer.Paging.{joined, assembly_finish-joined}
use ferricstore_typescript.Native.ReceiveBuffer.Reading.{unread, IsRead}
use ferricstore_typescript.Native.ReceiveBuffer.Draining.{not_equal}
use ferricstore_typescript.Native.ReceiveBuffer.Frames.{
  assembled, stream, Pending, PendingIf, Follows, decode_whole, decode_exact, decode_waits,
}

-- A frame is being put together.
module _ (b : ReceiveBuffer) (limit : Option ℤ) (a : FrameAssembly) (pending : b.assembly ≡ some a)
    (v : IsRead b) (p : Pending limit a (unread b)) where
  is_assembled : next_frame b limit ≡ next_assembled b a limit
  unfolding next_frame
  is_assembled = ap (λ (o : Option FrameAssembly). next_by o b limit) pending

  pub stream_eq : stream b ≡ joined a.pages ++ unread b
  stream_eq = ap (λ (o : Option FrameAssembly). assembled o ++ unread b) pending

  size_eq : frame_size (joined a.pages ++ unread b) ≡ a.frame_length
  size_eq =
      let s = read_uint-take 4 20 24 (joined a.pages ++ unread b) (omega arith) in
      let t = read_uint-take 4 20 24 (joined a.pages) (omega arith) in
      let e : take 24 (joined a.pages ++ unread b) ≡ take 24 (joined a.pages) =
        take-append_le 24 (joined a.pages) (unread b) p.header in
      omega (arith, p.length_eq, s, t, ap (read_uint 4 20) e)

  checks_eq : checks (joined a.pages ++ unread b) limit ≡ ok tt
  checks_eq =
      sym (checks-take 24 (joined a.pages ++ unread b) limit (omega arith))
      ∙ ap (λ (h : List ℕ). checks h limit) (take-append_le 24 (joined a.pages) (unread b) p.header)
      ∙ checks-take 24 (joined a.pages) limit (omega arith)
      ∙ p.checked

  pub incomplete-Follows :
      a.received_bytes < a.frame_length
      → Follows limit b (try_decode_frame (joined a.pages ++ unread b) limit)
  incomplete-Follows h =
      let short : length (joined a.pages ++ unread b) < frame_size (joined a.pages ++ unread b) =
        omega (
          arith,
          size_eq,
          length-append (joined a.pages) (unread b),
          ap length (p.no_tail h),
          p.good.received_eq,
        ) in
      rw
        (decode_waits (joined a.pages ++ unread b) limit
          (omega (arith, length-append (joined a.pages) (unread b), p.header)) short checks_eq)
        (
          b,
          is_assembled
              ∙ unfold next_assembled in
                rw (not_equal a.received_bytes a.frame_length (omega arith)) refl,
          record {
            read = v;
            pending =
                subst (λ (o : Option FrameAssembly). PendingIf limit o (unread b)) (sym pending) p;
          },
          refl,
        )

  finish_eq : a.received_bytes ≡ a.frame_length → assembly_finish a ≡ ok (joined a.pages)
  finish_eq e = assembly_finish-joined a p.good e (omega (arith, p.length_eq))

  pub complete-Follows :
      a.received_bytes ≡ a.frame_length
      → Follows limit b (try_decode_frame (joined a.pages ++ unread b) limit)
  complete-Follows e =
      let s : List ℕ = joined a.pages ++ unread b in
      let fits : frame_size s ≤ length s =
        omega (arith, size_eq, length-append (joined a.pages) (unread b), p.good.received_eq) in
      let n : frame_size s ≡ length (joined a.pages) = size_eq ∙ sym e ∙ p.good.received_eq in
      let head : take (frame_size s) s ≡ joined a.pages =
        rw n (take-append (joined a.pages) (unread b)) in
      let tail : drop (frame_size s) s ≡ unread b =
        rw n (drop-append (joined a.pages) (unread b)) in
      rw (decode_whole s limit fits checks_eq) (
        record b { assembly = none },
        is_assembled
            ∙ unfold next_assembled in
              rw ((==_iff _ _).1 e, finish_eq e, ← head, decode_exact s limit fits checks_eq) refl,
        record {
          read = record {
            full = v.full;
            index_le = v.index_le;
            fits = v.fits;
            buffered_eq = v.buffered_eq;
          };
          pending = tt;
        },
        sym tail,
      )
