-- ===== src/Native/ReceiveBuffer/Buffered.antt =====
-- `nextFrame` while no frame is being put together.
use Prim.Native.Nat.{ℕ, ◌≤◌, ◌<◌}
use mathlib.Core.Path.{◌≡◌, refl, sym, ap, ◌∙◌, subst}
use mathlib.Core.Option.{Option, none, some}
use mathlib.Core.List.{append-nil}
use native.Mathlib.Omega.{arith}
use ferricstore_typescript.Common.{
  length, ltb, if◌then◌else◌, inl, inr, Bool-cases, lt→ltb, le→ltb_false, ltb→lt, ltb_false→le,
}
use ferricstore_typescript.Common.Words.{ℤ}
use ferricstore_typescript.Common.Results.{ok, err, Result-cases}
use ferricstore_typescript.Protocol.Frame.{DecodeError, try_decode_frame}
use ferricstore_typescript.Protocol.Frame.Prefix.{
  checks, frame_size, read_uint-take, try_decode_short,
}
use ferricstore_typescript.Native.ReceiveBuffer.{
  ReceiveBuffer, FrameAssembly, new_assembly, lift_decode, next_by, next_frame, next_buffered,
  start_assembly, read_whole,
}
use ferricstore_typescript.Native.ReceiveBuffer.Paging.{joined, new_assembly-IsGood}
use ferricstore_typescript.Native.ReceiveBuffer.Reading.{unread, IsRead}
use ferricstore_typescript.Native.ReceiveBuffer.Draining.{peek-take, read-Reads, drain_into-Drains}
use ferricstore_typescript.Native.ReceiveBuffer.Frames.{
  PendingIf, IsValid, Follows, decode_whole, decode_exact, decode_waits, decode_refused,
  decode_header,
}

-- No frame is being put together.
module _ (b : ReceiveBuffer) (limit : Option ℤ) (none_pending : b.assembly ≡ none)
    (v : IsRead b) where
  is_buffered : next_frame b limit ≡ next_buffered b limit
  unfolding next_frame
  is_buffered = ap (λ (o : Option FrameAssembly). next_by o b limit) none_pending

  is_valid : IsValid limit b
  is_valid = record {
    read = v;
    pending =
        subst (λ (o : Option FrameAssembly). PendingIf limit o (unread b)) (sym none_pending) tt;
  }

  short-Follows : b.buffered_bytes < 24 → Follows limit b (try_decode_frame (unread b) limit)
  short-Follows h = rw (try_decode_short (unread b) limit (omega (arith, v.buffered_eq))) (
    b,
    is_buffered ∙ unfold next_buffered in rw (lt→ltb b.buffered_bytes 24 h) refl,
    is_valid,
    refl,
  )

  module _ (h : 24 ≤ b.buffered_bytes) where
    refused-Follows :
        (e : DecodeError)
        → checks (unread b) limit ≡ err e
        → Follows limit b (try_decode_frame (unread b) limit)
    refused-Follows e c =
        let (whole, head) = decode_refused (unread b) limit e (omega (arith, v.buffered_eq)) c in
        rw whole (
          is_buffered
          ∙ unfold next_buffered lift_decode in
            rw (le→ltb_false b.buffered_bytes 24 h, peek-take b 24 v (omega arith) h, head) refl)

    module _ (c : checks (unread b) limit ≡ ok tt) where
      past_header : next_buffered b limit ≡ (
          if ltb b.buffered_bytes (frame_size (unread b))
          then start_assembly b (frame_size (unread b))
          else read_whole b (frame_size (unread b)) limit)
      unfolding next_buffered lift_decode
      past_header =
          let (o, head) = decode_header (unread b) limit (omega (arith, v.buffered_eq)) c in
          rw
            (
              le→ltb_false b.buffered_bytes 24 h,
              peek-take b 24 v (omega arith) h,
              head,
              read_uint-take 4 20 24 (unread b) (omega arith),
            )
            refl

      start-Follows :
          b.buffered_bytes < frame_size (unread b)
          → Follows limit b (try_decode_frame (unread b) limit)
      start-Follows s =
          let a : FrameAssembly = new_assembly (frame_size (unread b)) in
          let d = drain_into-Drains b a v (new_assembly-IsGood _) (omega (arith, v.buffered_eq)) in
          let j : joined d.filled.pages ≡ unread b = unfold joined in d.appended.joined_eq in
          rw
            (decode_waits (unread b) limit (omega (arith, v.buffered_eq))
              (omega (arith, v.buffered_eq)) c)
            (
              record d.after { assembly = some d.filled },
              is_buffered ∙ past_header ∙ unfold start_assembly in rw (lt→ltb _ _ s, d.runs) refl,
              record {
                read = record {
                  full = d.valid.full;
                  index_le = d.valid.index_le;
                  fits = d.valid.fits;
                  buffered_eq = d.valid.buffered_eq;
                };
                pending = record {
                  good = d.appended.good;
                  header = omega (arith, ap length j, v.buffered_eq);
                  checked = rw j c;
                  length_eq = rw j d.appended.length_eq;
                  no_tail = λ _. d.bytes;
                };
              },
              rw (j, d.bytes, append-nil, none_pending) refl,
            )

      whole-Follows :
          frame_size (unread b) ≤ b.buffered_bytes
          → Follows limit b (try_decode_frame (unread b) limit)
      whole-Follows l =
          let n : ℕ = frame_size (unread b) in
          let fits : n ≤ length (unread b) = omega (arith, v.buffered_eq) in
          let r = read-Reads b n v (omega arith) l in
          let gone : r.after.assembly ≡ none = r.assembly ∙ none_pending in
          rw (decode_whole (unread b) limit fits c) (
            r.after,
            is_buffered
                ∙ past_header
                ∙ unfold read_whole in
                  rw (le→ltb_false _ _ l, r.runs, decode_exact (unread b) limit fits c) refl,
            record {
              read = r.valid;
              pending =
                  subst (λ (o : Option FrameAssembly). PendingIf limit o (unread r.after))
                    (sym gone) tt;
            },
            rw (gone, r.bytes) refl,
          )

  pub buffered-Follows : Follows limit b (try_decode_frame (unread b) limit)
  buffered-Follows = elim (Bool-cases (ltb b.buffered_bytes 24)) [
    | inl s ↦ short-Follows (ltb→lt _ _ s)
    | inr s ↦
        let h = ltb_false→le _ _ s in
        elim (Result-cases (checks (unread b) limit)) [
          | inr (e, c) ↦ refused-Follows h e c
          | inl (_, c) ↦ elim (Bool-cases (ltb b.buffered_bytes (frame_size (unread b)))) [
            | inl w ↦ start-Follows h c (ltb→lt _ _ w)
            | inr w ↦ whole-Follows h c (ltb_false→le _ _ w)
          ]
        ]
  ]
