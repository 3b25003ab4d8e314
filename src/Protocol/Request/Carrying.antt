-- ===== src/Protocol/Request/Carrying.antt =====
-- What a request that has been encoded holds.
use ferricstore_typescript.Common.{
  Bool-cases, inl, inr, ℕ, ◌+◌, ◌^◌, ◌≤◌, ◌<◌, ◌≡◌, refl, sym, ap, ◌∙◌, subst, false, Option, none,
  List, [], ◌∷◌, ◌++◌, ltb, leb, ltb_false→le, leb_false→lt, length, arith,
}
use ferricstore_typescript.Common.Words.{ℤ, to_be, of_be-to_be_4, of_be-to_be_8}
use ferricstore_typescript.Common.Results.{Result, ok, err, >>=-eq-ok, throw_if-ok}
use ferricstore_typescript.Protocol.Frame.{magic, read_uint}
use mathlib.Core.List.{append-nil}
use ferricstore_typescript.Protocol.Value.{Plan, Value, Error, frame_too_large}
use ferricstore_typescript.Protocol.Value.Encode.{
  write_value_plan, byte_length, plan_value_with_limit,
}
use ferricstore_typescript.Protocol.Value.Written.{write_value_plan-ok, plan_bytes}
use ferricstore_typescript.Protocol.Value.Decode.{decode_value}
use ferricstore_typescript.Protocol.Value.Lengths.{byte_length_within}
use ferricstore_typescript.Protocol.Value.RoundTrip.{image, IsWire, decode_value-planned}
use ferricstore_typescript.Protocol.Request.{
  RequestError, request_version, ProtocolCommand, normalize_encode_limit, or_lane, or_no_flags,
  encoding, encoded, write_uint, is_custom, request_body, encode_request,
}

write_uint-ok :
    (width n : ℕ) (bs : List ℕ)
    → write_uint width n ≡ ok bs
    → (to_be width n ≡ bs) × (n < 256 ^ width)
unfolding write_uint
write_uint-ok width n bs h = elim (Bool-cases (leb (256 ^ width) n)) [
  | inl e ↦ (let g = rw e at h in cc)
  | inr e ↦ (let g = rw e at h in (cc, leb_false→lt (256 ^ width) n e))
]

one_frame : (r : Result RequestError (List ℕ)) (a b : List ℕ) → r ≡ ok a → r ≡ ok b → a ≡ b
one_frame r a b h k = cc

encoded-ok : {A : Type 0} (r : Result Error A) (a : A) → encoded r ≡ ok a → r ≡ ok a
encoded-ok (ok b) a h = cc
encoded-ok (err e) a h = cc

-- The header's bytes.
abbrev header : ℕ → ℕ → ℕ → ℕ → ℕ → List ℕ
header flags lane opcode id size =
    magic
    ++ (request_version
        ∷ (to_be 1 flags ++ (to_be 4 lane ++ (to_be 2 opcode ++ (to_be 8 id ++ to_be 4 size)))))

pieces :
    (f l o i n body f1 l1 o1 i1 n1 : List ℕ)
    → f1 ≡ f
    → l1 ≡ l
    → o1 ≡ o
    → i1 ≡ i
    → n1 ≡ n
    → magic ++ (request_version ∷ (f ++ (l ++ (o ++ (i ++ (n ++ body))))))
      ≡ magic ++ (request_version ∷ (f1 ++ (l1 ++ (o1 ++ (i1 ++ (n1 ++ body))))))
pieces f l o i n body f1 l1 o1 i1 n1 a b c d e = rw (a, b, c, d, e) refl

-- What is said of a frame with a value behind the header.
abbrev pub Carries : (List ℕ → Option (List ℕ)) → Value → ℕ → ℕ → List ℕ → Type 0
Carries key_text v id limit frame =
    (decode_value key_text frame 24 none none ≡ ok (image v, length frame))
    × (read_uint 8 12 frame ≡ id)
    × (24 + read_uint 4 20 frame ≡ length frame)
    × (length frame ≤ 24 + limit)

header-Carries :
    (key_text : List ℕ → Option (List ℕ)) (v : Value) (flags lane opcode id size limit : ℕ)
    (p : Plan)
    → plan_value_with_limit v limit ≡ ok p
    → IsWire key_text v
    → byte_length p ≡ size
    → id < 256 ^ 8
    → size < 256 ^ 4
    → size ≤ limit
    → Carries key_text v id limit (header flags lane opcode id size ++ plan_bytes p)
unfolding read_uint
header-Carries key_text v flags lane opcode id size limit p e w b i n l =
    let (len, fits) = byte_length_within v limit p e in
    let reads = decode_value-planned key_text v limit p (header flags lane opcode id size) [] e w in
    let there = rw (append-nil (plan_bytes p)) at reads in
    (
      there ∙ ap (λ k. ok (image v, k)) (omega arith),
      of_be-to_be_8 id (omega arith),
      ap (λ k. 24 + k) (of_be-to_be_4 size (omega arith)) ∙ omega arith,
      omega arith,
    )

module _ (scalar_text : Value → List ℕ) where
  -- The parts of a request that has been encoded.
  record Encoded (command : ProtocolCommand) (id limit : ℕ) (frame : List ℕ) : Type 0 where
    pub body : ℕ × Result Error (List ℕ)
    pub payload : List ℕ
    pub payload_eq : body.1 ≡ ok payload
    pub body_eq : request_body scalar_text command limit ≡ ok body
    pub within : body.0 ≤ limit
    pub id_fits : id < 256 ^ 8
    pub size_fits : body.0 < 256 ^ 4
    pub frame_eq :
        frame
        ≡ header
            (or_no_flags command.flags)
            (or_lane command.lane_id command.opcode)
            command.opcode
            id
            body.0
          ++ payload

  encode_request-Encoded :
      (command : ProtocolCommand) (id : ℕ) (max_body_bytes : Option ℤ) (frame : List ℕ)
      → encode_request scalar_text command id max_body_bytes ≡ ok frame
      → Encoded command id (normalize_encode_limit max_body_bytes) frame
  unfolding encode_request
  encode_request-Encoded command id max_body_bytes frame h =
      let limit = normalize_encode_limit max_body_bytes in
      let (body, a, h1) = >>=-eq-ok (encoded (request_body scalar_text command limit)) _ h in
      let (b, h2) = throw_if-ok (ltb limit body.0) (encoding (frame_too_large limit)) _ _ h1 in
      let (flags, c, h3) = >>=-eq-ok (write_uint 1 (or_no_flags command.flags)) _ h2 in
      let (lane, d, h4) = >>=-eq-ok (write_uint 4 (or_lane command.lane_id command.opcode)) _ h3 in
      let (opcode, e, h5) = >>=-eq-ok (write_uint 2 command.opcode) _ h4 in
      let (tag, f, h6) = >>=-eq-ok (write_uint 8 id) _ h5 in
      let (size, g, h7) = >>=-eq-ok (write_uint 4 body.0) _ h6 in
      let (payload, p, h8) = >>=-eq-ok (encoded body.1) _ h7 in
      let (c1, c2) = write_uint-ok 1 (or_no_flags command.flags) flags c in
      let (d1, d2) = write_uint-ok 4 (or_lane command.lane_id command.opcode) lane d in
      let (e1, e2) = write_uint-ok 2 command.opcode opcode e in
      let (f1, f2) = write_uint-ok 8 id tag f in
      let (g1, g2) = write_uint-ok 4 body.0 size g in
      let all : magic
            ++ (request_version ∷ (flags ++ (lane ++ (opcode ++ (tag ++ (size ++ payload))))))
          ≡ frame =
        one_frame _ _ frame refl h8 in
      record {
        body = body;
        payload = payload;
        payload_eq = encoded-ok body.1 payload p;
        body_eq = encoded-ok (request_body scalar_text command limit) body a;
        within = ltb_false→le limit body.0 b;
        id_fits = f2;
        size_fits = g2;
        frame_eq = sym all ∙ pieces flags lane opcode tag size payload _ _ _ _ _ c1 d1 e1 f1 g1;
      }

  -- A request that carries a value, all of whose parts can be sent: behind the header of 24 bytes
  -- stands the value, which the decoder gives back and stops at the end of the frame. The header
  -- holds the request's id and the body's length, and the body is within the limit.
  pub encode_request-decode_value :
      (key_text : List ℕ → Option (List ℕ)) (command : ProtocolCommand) (id : ℕ)
      (max_body_bytes : Option ℤ) (frame : List ℕ)
      → encode_request scalar_text command id max_body_bytes ≡ ok frame
      → is_custom scalar_text command ≡ false
      → IsWire key_text command.payload
      → (decode_value key_text frame 24 none none ≡ ok (image command.payload, length frame))
        × (read_uint 8 12 frame ≡ id)
        × (24 + read_uint 4 20 frame ≡ length frame)
        × (length frame ≤ 24 + normalize_encode_limit max_body_bytes)
  unfolding request_body read_uint
  encode_request-decode_value key_text command id max_body_bytes frame h plain w =
      let limit = normalize_encode_limit max_body_bytes in
      let x = encode_request-Encoded command id max_body_bytes frame h in
      let made = rw plain at x.body_eq in
      let (p, e, f) = >>=-eq-ok (plan_value_with_limit command.payload limit) _ made in
      let size : byte_length p ≡ x.body.0 = cc in
      let writing : write_value_plan p ≡ x.body.1 = cc in
      let body = write_value_plan-ok p x.payload (writing ∙ x.payload_eq) in
      let carries =
        header-Carries key_text command.payload (or_no_flags command.flags)
          (or_lane command.lane_id command.opcode) command.opcode id x.body.0 limit p e w size
          x.id_fits x.size_fits x.within in
      subst (Carries key_text command.payload id limit)
        (ap
            (λ bs.
              header (or_no_flags command.flags) (or_lane command.lane_id command.opcode)
                command.opcode id x.body.0
              ++ bs)
            body
          ∙ sym x.frame_eq)
        carries
