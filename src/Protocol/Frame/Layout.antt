-- ===== src/Protocol/Frame/Layout.antt =====
-- The layout of a response frame, byte by byte, and the decoder against it.
use mathlib.Core.List.{append_assoc}
use ferricstore_typescript.Common.{
  drop-drop, length-drop, ℕ, ◌+◌, ◌-◌, ◌^◌, ◌<◌, ◌≤◌, ==_iff, true_of_not, ltb_false→le, ◌≡◌, refl,
  sym, ap, Bool, true, false, not, List, [], ◌∷◌, ◌++◌, Option, none, some, ltb, ◌==◌,
  if◌then◌else◌, length, take, drop, All, arith, length-append, take-append, drop-append,
  take-append-drop, length-take,
}
use ferricstore_typescript.Common.Words.{
  ℤ, to_be, of_be, of_be-to_be_2, of_be-to_be_4, of_be-to_be_8,
}
use ferricstore_typescript.Common.Results.{Result, ok, ◌>>◌, throw_if}
use ferricstore_typescript.Protocol.Frame.{
  ResponseFrame, magic, response_version, default_max_frame_bytes, normalize_decode_limit,
  ascii_text, bytes_eq, try_decode_frame, read_frame, read_uint, DecodeError,
}

abbrev pub IsByte : ℕ → Type 0
IsByte b = b < 256

-- A frame whose fields fit their places in the header.
pub record IsFrame (f : ResponseFrame) : Type 0 where
  pub length_eq : f.body_length ≡ length f.body
  pub length_fits : f.body_length < 2 ^ 32
  pub flags_fits : f.flags < 256
  pub lane_fits : f.lane_id < 2 ^ 32
  pub opcode_fits : f.opcode < 2 ^ 16
  pub request_fits : f.request_id < 2 ^ 64

abbrev pub header_bytes : List ℕ → ResponseFrame → List ℕ
header_bytes mark f =
    mark
    ++ ((response_version ∷ f.flags ∷ to_be 4 f.lane_id)
        ++ (to_be 2 f.opcode ++ (to_be 8 f.request_id ++ to_be 4 f.body_length)))

abbrev pub marked_frame_bytes : List ℕ → ResponseFrame → List ℕ
marked_frame_bytes mark f = header_bytes mark f ++ f.body

abbrev pub frame_bytes : ResponseFrame → List ℕ
frame_bytes f = marked_frame_bytes magic f

-- A buffer that starts with a frame whose fields fit and whose body is within the limit decodes
-- to that frame and what follows it.
pub try_decode_frame-frame_bytes :
    (f : ResponseFrame) (rest : List ℕ) (limit : Option ℤ)
    → IsFrame f
    → f.body_length ≤ normalize_decode_limit limit default_max_frame_bytes
    → try_decode_frame (frame_bytes f ++ rest) limit ≡ ok (some (f, rest))
unfolding try_decode_frame read_uint read_frame bytes_eq ascii_text
try_decode_frame-frame_bytes f rest limit v h = ground (
  arith,
  of_be-to_be_4 f.lane_id,
  of_be-to_be_4 f.body_length,
  of_be-to_be_2 f.opcode,
  of_be-to_be_8 f.request_id,
  take-append f.body rest,
  drop-append f.body rest,
  length-append f.body rest,
)

to_be-of_be_8 :
    (a b c d e f g h : ℕ)
    → a < 256
    → b < 256
    → c < 256
    → d < 256
    → e < 256
    → f < 256
    → g < 256
    → h < 256
    → to_be 8 (of_be (a ∷ b ∷ c ∷ d ∷ e ∷ f ∷ g ∷ h ∷ [])) ≡ a ∷ b ∷ c ∷ d ∷ e ∷ f ∷ g ∷ h ∷ []
to_be-of_be_8 a b c d e f g h p0 p1 p2 p3 p4 p5 p6 p7 = ground arith

to_be-of_be_2 : (a b : ℕ) → a < 256 → b < 256 → to_be 2 (of_be (a ∷ b ∷ [])) ≡ a ∷ b ∷ []
to_be-of_be_2 a b p0 p1 = ground arith

to_be-of_be_4 :
    (a b c d : ℕ)
    → a < 256
    → b < 256
    → c < 256
    → d < 256
    → to_be 4 (of_be (a ∷ b ∷ c ∷ d ∷ [])) ≡ a ∷ b ∷ c ∷ d ∷ []
to_be-of_be_4 a b c d p0 p1 p2 p3 = ground arith

size : List ℕ → ℕ
size buffer = read_uint 4 20 buffer

-- What the tests have established when a frame comes out.
passed :
    {A : Type 0} (short bad_magic bad_version large incomplete : Bool) (e1 e2 e3 : DecodeError)
    (r a : A)
    → ◌≡◌ {A = Result DecodeError (Option A)}
        (if short then ok none else do
          throw_if bad_magic e1
          throw_if bad_version e2
          throw_if large e3
          if incomplete then ok none else ok (some r))
        (ok (some a))
    → (bad_magic ≡ false) × (bad_version ≡ false) × (large ≡ false) × (incomplete ≡ false) × (r ≡ a)
passed true _ _ _ _ e1 e2 e3 r a e = cc
passed false true _ _ _ e1 e2 e3 r a e = cc
passed false false true _ _ e1 e2 e3 r a e = cc
passed false false false true _ e1 e2 e3 r a e = cc
passed false false false false true e1 e2 e3 r a e = cc
passed false false false false false e1 e2 e3 r a e = (refl, refl, refl, refl, cc)

decoded :
    (buffer : List ℕ) (limit : Option ℤ) (f : ResponseFrame) (rest : List ℕ)
    → try_decode_frame buffer limit ≡ ok (some (f, rest))
    → (bytes_eq (ascii_text (take 4 buffer)) magic ≡ true)
      × (read_uint 1 4 buffer ≡ 129)
      × (f ≡ read_frame buffer (size buffer))
      × (rest ≡ drop (24 + size buffer) buffer)
      × (24 + size buffer ≤ length buffer)
      × (size buffer ≤ normalize_decode_limit limit default_max_frame_bytes)
unfolding try_decode_frame size
decoded buffer limit f rest e =
    let (m, v, s, i, r) =
      passed (ltb (length buffer) 24) (not (bytes_eq (ascii_text (take 4 buffer)) magic))
        (not (read_uint 1 4 buffer == 129))
        (ltb (normalize_decode_limit limit default_max_frame_bytes) (read_uint 4 20 buffer))
        (ltb (length buffer) (24 + read_uint 4 20 buffer)) _ _ _ _ _ e in
    (
      true_of_not _ m,
      (==_iff _ _).0 (true_of_not _ v),
      ap (λ (p : ResponseFrame × List ℕ). p.0) (sym r),
      ap (λ (p : ResponseFrame × List ℕ). p.1) (sym r),
      ltb_false→le _ _ i,
      ltb_false→le _ _ s,
    )

eq_of_bytes_eq : (xs ys : List ℕ) → bytes_eq xs ys ≡ true → xs ≡ ys
unfolding bytes_eq
eq_of_bytes_eq [] [] h = refl
eq_of_bytes_eq [] (y ∷ ys) h = cc
eq_of_bytes_eq (x ∷ xs) [] h = cc
eq_of_bytes_eq (x ∷ xs) (y ∷ ys) h = ground (arith, eq_of_bytes_eq xs ys)

header_layout :
    (buffer : List ℕ)
    → All IsByte buffer
    → 24 ≤ length buffer
    → read_uint 1 4 buffer ≡ 129
    → take 24 buffer ≡ header_bytes (take 4 buffer) (read_frame buffer (size buffer))
unfolding size read_uint read_frame
header_layout
      (b0 ∷ b1 ∷ b2 ∷ b3 ∷ b4 ∷ b5 ∷ b6 ∷ b7 ∷ b8 ∷ b9 ∷ b10 ∷ b11 ∷ b12 ∷ b13 ∷ b14 ∷ b15 ∷ b16
        ∷ b17 ∷ b18 ∷ b19 ∷ b20 ∷ b21 ∷ b22 ∷ b23 ∷ tail)
      (
        h0,
        (
          h1,
          (
            h2,
            (
              h3,
              (
                h4,
                (
                  h5,
                  (
                    h6,
                    (
                      h7,
                      (
                        h8,
                        (
                          h9,
                          (
                            h10,
                            (
                              h11,
                              (
                                h12,
                                (
                                  h13,
                                  (
                                    h14,
                                    (
                                      h15,
                                      (h16, (h17, (h18, (h19, (h20, (h21, (h22, (h23, _)))))))),
                                    ),
                                  ),
                                ),
                              ),
                            ),
                          ),
                        ),
                      ),
                    ),
                  ),
                ),
              ),
            ),
          ),
        ),
      )
      h v =
    ground (
      arith,
      to_be-of_be_4 b6 b7 b8 b9 h6 h7 h8 h9,
      to_be-of_be_4 b20 b21 b22 b23 h20 h21 h22 h23,
      to_be-of_be_8 b12 b13 b14 b15 b16 b17 b18 b19 h12 h13 h14 h15 h16 h17 h18 h19,
      to_be-of_be_2 b10 b11 h10 h11,
    )
header_layout [] _ h v = elim h [ ]
header_layout _ _ h v = absurd (omega arith)

split_frame :
    (buffer head : List ℕ) (n : ℕ)
    → take 24 buffer ≡ head
    → buffer ≡ (head ++ take (24 + n - 24) (drop 24 buffer)) ++ drop (24 + n) buffer
split_frame buffer head n e =
    let m : 24 + n - 24 ≡ n = omega arith in
    rw (m, ← drop-drop n 24 buffer, append_assoc, take-append-drop n, ← e)
      (sym (take-append-drop 24 buffer))

-- Whatever decodes from bytes is a frame laid out behind four bytes that read as the magic text
-- once their highest bits are cleared, within the limit, and then the bytes given back.
pub try_decode_frame_sound :
    (buffer : List ℕ) (limit : Option ℤ) (f : ResponseFrame) (rest : List ℕ)
    → All IsByte buffer
    → try_decode_frame buffer limit ≡ ok (some (f, rest))
    → (buffer ≡ marked_frame_bytes (take 4 buffer) f ++ rest)
      × (ascii_text (take 4 buffer) ≡ magic)
      × (f.body_length ≡ length f.body)
      × (f.body_length ≤ normalize_decode_limit limit default_max_frame_bytes)
unfolding read_frame
try_decode_frame_sound buffer limit f rest bytes e =
    let (m, v, fe, re, n, l) = decoded buffer limit f rest e in
    rw (fe, re)
      (
        split_frame buffer (header_bytes (take 4 buffer) (read_frame buffer (size buffer)))
            (size buffer) (header_layout buffer bytes (omega arith) v),
        eq_of_bytes_eq _ _ m,
        omega (arith, length-take (24 + size buffer - 24) (drop 24 buffer), length-drop 24 buffer),
        l,
      )
