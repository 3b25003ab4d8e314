-- ===== src/Protocol/Value/Bounded.antt =====
-- Whatever the decoder gives is within its limits.
use ferricstore_typescript.Common.{
  ℕ, zero, suc, ◌+◌, ◌-◌, ◌≤◌, ◌≡◌, inl, inr, refl, sym, ap, ◌∙◌, subst, true, false, Bool-cases,
  Option, List, ◌==◌, ==_iff, if◌then◌else◌, drop, arith,
}
use ferricstore_typescript.Common.Words.{ℤ, pos}
use ferricstore_typescript.Common.Results.{ok, err, ◌>>=◌, >>=-eq-ok}
use ferricstore_typescript.Protocol.Frame.{normalize_decode_limit}
use ferricstore_typescript.Protocol.Value.{
  Decoded, null_value, truth, buffer, list, record_of, float, DecodedFields, no_fields, nesting,
  default_max_value_depth, default_max_value_items,
}
use ferricstore_typescript.Protocol.Value.Decode.{
  Reads, read_word, read_binary, require_value_container, to_signed, integer_value, set_text_entry,
  set_protocol_map_entry, decode_items, decode_three, decode_fields, decode_array, decode_object,
  decode_tag, decode_value_at, decode_value,
}
use ferricstore_typescript.Protocol.Value.Reading.{decode_three_eq_items}
use ferricstore_typescript.Protocol.Value.Limits.{
  member_count, field_count, depth, depth_fields, Costs, KeepsLimits, field_count-add_member,
  depth_fields-add_member, set_text_entry-ok, decode_items-Costs, require_value_container-inv,
  if_inv, read_scalar-Costs, integer_value_scalar,
}

module _ (key_text : List ℕ → Option (List ℕ)) where
  decode_fields-Costs :
      (inner : ℕ → List ℕ → Reads Decoded) (room : ℕ)
      → KeepsLimits inner room
      → (count : ℕ) (target : DecodedFields) (left : ℕ) (input : List ℕ) (fs : DecodedFields)
        (left1 : ℕ) (rest : List ℕ)
      → depth_fields target ≤ room
      → decode_fields key_text inner count target left input ≡ ok (fs, left1, rest)
      → (field_count fs + left1 ≡ field_count target + left + count) × (depth_fields fs ≤ room)
  unfolding decode_fields set_protocol_map_entry
  decode_fields-Costs inner room keeps zero target left input fs left1 rest l h =
      let e : target ≡ fs = cc in
      let f : left ≡ left1 = cc in
      (omega (arith, ap field_count e), subst (λ x. depth_fields x ≤ room) e l)
  decode_fields-Costs inner room keeps (suc count) target left input fs left1 rest l h =
      let (key, e, h1) = >>=-eq-ok (read_binary input) _ h in
      let (r, f, h2) = >>=-eq-ok (inner left key.1) _ h1 in
      let (t, g, h3) = >>=-eq-ok (set_text_entry (key_text key.0) r.0 target) _ h2 in
      let (name, added) = set_text_entry-ok (key_text key.0) r.0 target t g in
      let (a, b) = keeps left key.1 r.0 r.1 r.2 f in
      let deep : depth_fields t ≤ room =
        subst (λ x. depth_fields x ≤ room) (sym added)
          (depth_fields-add_member name r.0 target room b l) in
      let (c, d) = decode_fields-Costs inner room keeps count t r.1 r.2 fs left1 rest deep h3 in
      (omega (arith, ap field_count added, field_count-add_member name r.0 target), d)

  decode_array-Costs :
      (inner : ℕ → List ℕ → Reads Decoded) (room : ℕ)
      → KeepsLimits inner (room - 1)
      → (max_items left : ℕ) (input : List ℕ) (d : Decoded) (left1 : ℕ) (rest : List ℕ)
      → decode_array key_text room max_items inner left input ≡ ok (d, left1, rest)
      → Costs d room left left1
  unfolding decode_array
  decode_array-Costs inner room keeps max_items left input d left1 rest h =
      let (count, e, h1) = >>=-eq-ok (read_word 4 input) _ h in
      let (left0, f, h2) = >>=-eq-ok (require_value_container count.0 room max_items left) _ h1 in
      let (r, g, h3) =
        >>=-eq-ok
          (if count.0 == 3
            then decode_three inner left0 count.1
            else decode_items inner count.0 left0 count.1)
          _ h2 in
      let (deep, paid) = require_value_container-inv count.0 room max_items left left0 f in
      let reads : decode_items inner count.0 left0 count.1 ≡ ok r =
        elim (Bool-cases (count.0 == 3)) [
          | inl b ↦
              (let three : count.0 ≡ 3 = (==_iff count.0 3).0 b in
                ap (λ n. decode_items inner n left0 count.1) three
                ∙ sym (decode_three_eq_items inner left0 count.1)
                ∙ (let k = rw b at g in k))
          | inr b ↦ (let k = rw b at g in k)
        ] in
      let (a, b) =
        decode_items-Costs inner (room - 1) keeps count.0 left0 count.1 r.0 r.1 r.2 reads in
      let p : list r.0 ≡ d = cc in
      let q : r.1 ≡ left1 = cc in subst (λ x. Costs x room left left1) p (omega arith, omega arith)

  decode_object-Costs :
      (inner : ℕ → List ℕ → Reads Decoded) (room : ℕ)
      → KeepsLimits inner (room - 1)
      → (max_items left : ℕ) (input : List ℕ) (d : Decoded) (left1 : ℕ) (rest : List ℕ)
      → decode_object key_text room max_items inner left input ≡ ok (d, left1, rest)
      → Costs d room left left1
  unfolding decode_object
  decode_object-Costs inner room keeps max_items left input d left1 rest h =
      let (count, e, h1) = >>=-eq-ok (read_word 4 input) _ h in
      let (left0, f, h2) = >>=-eq-ok (require_value_container count.0 room max_items left) _ h1 in
      let (r, g, h3) =
        >>=-eq-ok (decode_fields key_text inner count.0 no_fields left0 count.1) _ h2 in
      let (deep, paid) = require_value_container-inv count.0 room max_items left left0 f in
      let (a, b) =
        decode_fields-Costs inner (room - 1) keeps count.0 no_fields left0 count.1 r.0 r.1 r.2
          (omega arith) g in
      let p : record_of r.0 ≡ d = cc in
      let q : r.1 ≡ left1 = cc in subst (λ x. Costs x room left left1) p (omega arith, omega arith)

  word-Costs :
      (room left : ℕ) (input : List ℕ) (made : ℕ → Decoded) (d : Decoded) (left1 : ℕ)
      (rest : List ℕ)
      → ((n : ℕ) → (member_count (made n) ≡ 0) × (depth (made n) ≡ 0))
      → Path
          (Reads Decoded)
          (do r ← read_word 8 input; ok (made r.0, left, r.1))
          (ok (d, left1, rest))
      → Costs d room left left1
  word-Costs room left input made d left1 rest scalar h =
      let (r, e, h1) = >>=-eq-ok (read_word 8 input) _ h in
      read_scalar-Costs (made r.0) left r.1 room d left1 rest (scalar r.0).0 (scalar r.0).1 h1

  decode_tag-Costs :
      (inner : ℕ → List ℕ → Reads Decoded) (room : ℕ)
      → KeepsLimits inner (room - 1)
      → (max_items tag left : ℕ) (input : List ℕ) (d : Decoded) (left1 : ℕ) (rest : List ℕ)
      → decode_tag key_text room max_items inner tag left input ≡ ok (d, left1, rest)
      → Costs d room left left1
  unfolding decode_tag
  decode_tag-Costs inner room keeps max_items tag left input d left1 rest h0 =
      elim (if_inv (tag == 0) _ _ _ h0) [
        | inl h ↦ read_scalar-Costs null_value left input room d left1 rest refl refl h
        | inr h1 ↦ elim (if_inv (tag == 1) _ _ _ h1) [
          | inl h ↦ read_scalar-Costs (truth true) left input room d left1 rest refl refl h
          | inr h2 ↦ elim (if_inv (tag == 2) _ _ _ h2) [
            | inl h ↦ read_scalar-Costs (truth false) left input room d left1 rest refl refl h
            | inr h3 ↦ elim (if_inv (tag == 3) _ _ _ h3) [
              | inl h ↦
                  word-Costs room left input (λ n. integer_value (to_signed n)) d left1 rest
                    (λ n. integer_value_scalar (to_signed n)) h
              | inr h4 ↦ elim (if_inv (tag == 4) _ _ _ h4) [
                | inl h ↦
                    (let (r, e, g) = >>=-eq-ok (read_binary input) _ h in
                      read_scalar-Costs (buffer r.0) left r.1 room d left1 rest refl refl g)
                | inr h5 ↦ elim (if_inv (tag == 5) _ _ _ h5) [
                  | inl h ↦ decode_array-Costs inner room keeps max_items left input d left1 rest h
                  | inr h6 ↦ elim (if_inv (tag == 6) _ _ _ h6) [
                    | inl h ↦
                        decode_object-Costs inner room keeps max_items left input d left1 rest h
                    | inr h7 ↦ elim (if_inv (tag == 7) _ _ _ h7) [
                      | inl h ↦ word-Costs room left input float d left1 rest (λ n. (refl, refl)) h
                      | inr h8 ↦ elim (if_inv (tag == 8) _ _ _ h8) [
                        | inl h ↦
                            word-Costs room left input (λ n. integer_value (pos n)) d left1 rest
                              (λ n. integer_value_scalar (pos n)) h
                        | inr h9 ↦ cc
                      ]
                    ]
                  ]
                ]
              ]
            ]
          ]
        ]
      ]

  decode_value_at-Costs :
      (room max_items : ℕ) → KeepsLimits (decode_value_at key_text room max_items) room
  unfolding decode_value_at
  decode_value_at-Costs zero max_items left input d left1 rest h =
      let (tag, e, h1) = >>=-eq-ok (read_word 1 input) _ h in
      decode_tag-Costs (λ left2 rest2. err nesting) 0 (λ l i x l1 r k. cc) max_items tag.0 left
        tag.1 d left1 rest h1
  decode_value_at-Costs (suc room) max_items left input d left1 rest h =
      let (tag, e, h1) = >>=-eq-ok (read_word 1 input) _ h in
      decode_tag-Costs (decode_value_at key_text room max_items) (suc room)
        (subst (KeepsLimits (decode_value_at key_text room max_items)) (omega arith)
          (decode_value_at-Costs room max_items))
        max_items tag.0 left tag.1 d left1 rest h1

  -- A value that has been decoded nests no deeper than the limit of the depth, and has no more
  -- members, over all its containers, than the limit of the items.
  pub decode_value_within_limits :
      (input : List ℕ) (offset : ℕ) (max_depth max_items : Option ℤ) (d : Decoded) (end : ℕ)
      → decode_value key_text input offset max_depth max_items ≡ ok (d, end)
      → (depth d ≤ normalize_decode_limit max_depth default_max_value_depth)
        × (member_count d ≤ normalize_decode_limit max_items default_max_value_items)
  unfolding decode_value
  decode_value_within_limits input offset max_depth max_items d end h =
      let room = normalize_decode_limit max_depth default_max_value_depth in
      let limit = normalize_decode_limit max_items default_max_value_items in
      let (r, e, h1) =
        >>=-eq-ok (decode_value_at key_text room limit limit (drop offset input)) _ h in
      let (a, b) = decode_value_at-Costs room limit limit (drop offset input) r.0 r.1 r.2 e in
      let p : r.0 ≡ d = cc in
      subst (λ x. (depth x ≤ room) × (member_count x ≤ limit)) p (b, omega arith)
