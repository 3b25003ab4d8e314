-- ===== src/Protocol/Value/RoundTrip.antt =====
-- The decoder on what the encoder gives.
use ferricstore_typescript.Common.{
  ltb, if◌then◌else◌, subst, drop-append, ℕ, zero, suc, ◌+◌, ◌-◌, ◌^◌, ◌≤◌, ◌<◌, ◌≡◌, refl, ap, ◌∙◌,
  inl, inr, true, false, Bool-cases, Option, none, some, List, [], ◌∷◌, ◌++◌, length, length-append,
  arith,
}
use mathlib.Core.List.{append_assoc}
use ferricstore_typescript.Common.Words.{ℤ, pos, negsuc, to_be}
use ferricstore_typescript.Common.Results.{ok, >>=-eq-ok}
use ferricstore_typescript.Common.Utf8.{utf8}
use ferricstore_typescript.Protocol.Frame.{normalize_decode_limit}
use ferricstore_typescript.Protocol.Value.{
  Value, nullish, boolean, integer, bigint, double, text, bytes, array, object, symbol, unsupported,
  Items, nil, cons, hole, Fields, end, field, Plan, tag_only, signed, binary, double_bits, Plans,
  no_plans, Entries, no_entries, Decoded, number, big, null_value, truth, buffer, list, record_of,
  float, DecodedItems, no_items, item, DecodedFields, no_fields, member, null_u32, max_safe_integer,
}
use ferricstore_typescript.Protocol.Value.Encode.{
  Budget, is_safe, plan_value, plan_items, plan_fields, new_budget, plan_value_with_limit,
  encode_value_with_limit, encode_value, count_items, count_fields,
}
use ferricstore_typescript.Protocol.Value.Written.{
  write_value_plan-ok, plan_bytes, plans_bytes, entries_bytes,
}
use ferricstore_typescript.Protocol.Value.Decode.{
  integer_value, decode_items, decode_fields, add_member, decode_tag, decode_value_at, decode_value,
}
use ferricstore_typescript.Protocol.Value.Planned.{
  array_planned, object_planned, items_planned, fields_planned, consume_bytes-ok,
}
use ferricstore_typescript.Protocol.Value.Reading.{IsInt64}
use ferricstore_typescript.Protocol.Value.Scalars.{
  tag_only_0, tag_only_1, tag_only_2, signed_read, double_read, binary_read, bigint_read,
  scalar_read, decode_value_at-tag,
}
use ferricstore_typescript.Protocol.Value.Containers.{
  count_plans_eq, count_entries_eq, join_fields, join_fields-add_member, join_fields_no_fields,
  Apart, Fresh, Fresh-no_fields, Fresh-add_member, array_read, object_read, decode_fields_step,
}

-- A bigint comes back as a number where it is at most 2^53 - 1 away from 0.
abbrev sent_integer : ℤ → Decoded
sent_integer (pos n) = if ltb n (2 ^ 53) then number (pos n) else big (pos n)
sent_integer (negsuc n) = if ltb n (2 ^ 53 - 1) then number (negsuc n) else big (negsuc n)

-- The value that the decoder gives for one that has been sent: strings come back as their bytes in
-- UTF-8, integers as numbers where they are safe, and objects as plain ones.
abbrev mutual
  pub image : Value → Decoded
  image nullish = null_value
  image (boolean b) = truth b
  image (integer z) = number z
  image (bigint z) = sent_integer z
  image (double bits) = float bits
  image (text units) = buffer (utf8 units)
  image (bytes bs) = buffer bs
  image (array id vs) = list (image_items vs)
  image (object id fs) = record_of (image_fields fs)
  image (symbol description) = null_value
  image unsupported = null_value

  pub image_items : Items → DecodedItems
  image_items nil = no_items
  image_items (cons v vs) = item (image v) (image_items vs)
  image_items (hole vs) = no_items

  pub image_fields : Fields → DecodedFields
  image_fields end = no_fields
  image_fields (field k v fs) = member k (image v) (image_fields fs)

integer_value-sent_integer : (z : ℤ) → integer_value z ≡ sent_integer z
unfolding integer_value is_safe
integer_value-sent_integer (pos n) = ground arith
integer_value-sent_integer (negsuc n) = ground arith

integer_value-safe : (z : ℤ) → is_safe z ≡ true → integer_value z ≡ number z
unfolding integer_value
integer_value-safe z h = rw h refl

is_safe-IsInt64 : (z : ℤ) → is_safe z ≡ true → IsInt64 z
unfolding is_safe
is_safe-IsInt64 (pos n) h = ground arith
is_safe-IsInt64 (negsuc n) h = ground arith

-- Where a container may nest, there is room below it.
room_below :
    (room depth : ℕ)
    → room + depth ≡ 64
    → depth < 64
    → (r : ℕ) × (room ≡ suc r) × (r + (depth + 1) ≡ 64)
room_below zero depth h k = absurd (omega arith)
room_below (suc r) depth h k = (r, refl, omega arith)

entry_assoc :
    (key value more rest : List ℕ)
    → (to_be 4 (length key) ++ (key ++ (value ++ more))) ++ rest
      ≡ to_be 4 (length key) ++ (key ++ (value ++ (more ++ rest)))
entry_assoc key value more rest =
    append_assoc (to_be 4 (length key)) (key ++ (value ++ more)) rest
    ∙ ap (λ t. to_be 4 (length key) ++ t)
        (append_assoc key (value ++ more) rest ∙ ap (λ t. key ++ t) (append_assoc value more rest))

module _ (key_text : List ℕ → Option (List ℕ)) where
  -- What can be sent: strings and byte lists that a length of 32 bits can tell, doubles of 64 bits,
  -- and keys that are different and come back from their bytes.
  abbrev mutual
    pub IsWire : Value → Type 0
    IsWire (double bits) = bits < 2 ^ 64
    IsWire (text units) = length (utf8 units) < null_u32
    IsWire (bytes bs) = length bs < null_u32
    IsWire (array id vs) = AreWireItems vs
    IsWire (object id fs) = AreWireFields fs
    IsWire nullish = Unit {0}
    IsWire (boolean b) = Unit {0}
    IsWire (integer z) = Unit {0}
    IsWire (bigint z) = Unit {0}
    IsWire (symbol description) = Unit {0}
    IsWire unsupported = Unit {0}

    pub AreWireItems : Items → Type 0
    AreWireItems nil = Unit {0}
    AreWireItems (cons v vs) = IsWire v × AreWireItems vs
    AreWireItems (hole vs) = AreWireItems vs

    pub AreWireFields : Fields → Type 0
    AreWireFields end = Unit {0}
    AreWireFields (field k v fs) =
        (length (utf8 k) < null_u32)
        × (key_text (utf8 k) ≡ some k)
        × Apart k fs
        × IsWire v
        × AreWireFields fs

  array_at :
      (room count left left1 : ℕ) (body rest : List ℕ) (is : DecodedItems)
      → count ≤ 100000
      → count ≤ left
      → decode_items (decode_value_at key_text room 100000) count (left - count) (body ++ rest)
        ≡ ok (is, left1, rest)
      → decode_value_at key_text (suc room) 100000 left ((5 ∷ (to_be 4 count ++ body)) ++ rest)
        ≡ ok (list is, left1, rest)
  unfolding decode_tag
  array_at room count left left1 body rest is h k reads =
      rw (decode_value_at-tag key_text (suc room) 100000 left 5 ((to_be 4 count ++ body) ++ rest))
        (array_read key_text count room 100000 left left1 _ body rest is (omega arith) h k reads)

  object_at :
      (room count left left1 : ℕ) (body rest : List ℕ) (gs : DecodedFields)
      → count ≤ 100000
      → count ≤ left
      → decode_fields key_text
          (decode_value_at key_text room 100000)
          count
          no_fields
          (left - count)
          (body ++ rest)
        ≡ ok (gs, left1, rest)
      → decode_value_at key_text (suc room) 100000 left ((6 ∷ (to_be 4 count ++ body)) ++ rest)
        ≡ ok (record_of gs, left1, rest)
  unfolding decode_tag
  object_at room count left left1 body rest gs h k reads =
      rw (decode_value_at-tag key_text (suc room) 100000 left 6 ((to_be 4 count ++ body) ++ rest))
        (object_read key_text count room 100000 left left1 _ body rest gs (omega arith) h k reads)

  mutual
    unfolding plan_value plan_bytes decode_items decode_fields count_items count_fields

    value_read :
        (v : Value) (b : Budget) (ancestors : List ℕ) (depth : ℕ) (b' : Budget) (q : Plan)
        (room : ℕ) (rest : List ℕ)
        → plan_value v b ancestors depth ≡ ok (b', q)
        → IsWire v
        → room + depth ≡ 64
        → decode_value_at key_text room 100000 b.remaining_items (plan_bytes q ++ rest)
          ≡ ok (image v, b'.remaining_items, rest)
    value_read nullish b ancestors depth b' q room rest h w d =
        scalar_read key_text b (tag_only 0) b' q _ room 100000 rest h
          (tag_only_0 key_text room 100000 rest)
    value_read (boolean true) b ancestors depth b' q room rest h w d =
        scalar_read key_text b (tag_only 1) b' q _ room 100000 rest h
          (tag_only_1 key_text room 100000 rest)
    value_read (boolean false) b ancestors depth b' q room rest h w d =
        scalar_read key_text b (tag_only 2) b' q _ room 100000 rest h
          (tag_only_2 key_text room 100000 rest)
    value_read (integer z) b ancestors depth b' q room rest h w d = elim (Bool-cases (is_safe z)) [
      | inl e ↦
          scalar_read key_text b (signed z) b' q _ room 100000 rest (rw e at h)
            (signed_read key_text z room 100000 rest (is_safe-IsInt64 z e))
          ∙ ap (λ x. ok (x, b'.remaining_items, rest)) (integer_value-safe z e)
      | inr e ↦ (let k = rw e at h in cc)
    ]
    value_read (bigint z) b ancestors depth b' q room rest h w d =
        bigint_read key_text b z b' q room 100000 rest h
        ∙ ap (λ x. ok (x, b'.remaining_items, rest)) (integer_value-sent_integer z)
    value_read (double bits) b ancestors depth b' q room rest h w d =
        scalar_read key_text b (double_bits bits) b' q _ room 100000 rest h
          (double_read key_text bits room 100000 rest w)
    value_read (text units) b ancestors depth b' q room rest h w d =
        scalar_read key_text b (binary (utf8 units)) b' q _ room 100000 rest h
          (binary_read key_text (utf8 units) room 100000 rest w)
    value_read (bytes bs) b ancestors depth b' q room rest h w d =
        scalar_read key_text b (binary bs) b' q _ room 100000 rest h
          (binary_read key_text bs room 100000 rest w)
    value_read (symbol description) b ancestors depth b' q room rest h w d = cc
    value_read unsupported b ancestors depth b' q room rest h w d = cc
    value_read (array id vs) b ancestors depth b' q room rest h w d =
        let (b1, n, ps, o, e, k) = array_planned id vs b ancestors depth b' q h in
        let (r, deep, d1) = room_below room depth d o.depth_lt in
        let reads = items_read vs b1 (id ∷ ancestors) (depth + 1) b' n ps r rest e w d1 in
        let paid = rw (o.items_eq) at reads in
        rw (deep, k, count_plans_eq vs b1 (id ∷ ancestors) (depth + 1) b' n ps e)
          (array_at r (count_items vs) _ _ (plans_bytes ps) rest _ o.count_le o.room paid)
    value_read (object id fs) b ancestors depth b' q room rest h w d =
        let (b1, n, es, o, e, k) = object_planned id fs b ancestors depth b' q h in
        let (r, deep, d1) = room_below room depth d o.depth_lt in
        let reads =
          fields_read fs no_fields b1 (id ∷ ancestors) (depth + 1) b' n es r rest e w
            (Fresh-no_fields fs) d1 in
        let paid = rw (o.items_eq) at reads in
        rw (deep, k, count_entries_eq fs b1 (id ∷ ancestors) (depth + 1) b' n es e)
          (object_at r (count_fields fs) _ _ (entries_bytes es) rest _ o.count_le o.room paid)

    items_read :
        (vs : Items) (b : Budget) (ancestors : List ℕ) (depth : ℕ) (b' : Budget) (n : ℕ)
        (ps : Plans) (room : ℕ) (rest : List ℕ)
        → plan_items vs b ancestors depth ≡ ok (b', n, ps)
        → AreWireItems vs
        → room + depth ≡ 64
        → decode_items
            (decode_value_at key_text room 100000)
            (count_items vs)
            b.remaining_items
            (plans_bytes ps ++ rest)
          ≡ ok (image_items vs, b'.remaining_items, rest)
    items_read nil b ancestors depth b' n ps room rest h w d =
        let e : no_plans ≡ ps = cc in let f : b ≡ b' = cc in rw (← e, ← f) refl
    items_read (hole vs) b ancestors depth b' n ps room rest h w d = cc
    items_read (cons v vs) b ancestors depth b' n ps room rest h (w, ws) d =
        let (b1, p, m, qs, e, f, g, k) = items_planned v vs b ancestors depth b' n ps h in
        rw
          (
            k,
            append_assoc (plan_bytes p) (plans_bytes qs) rest,
            value_read v b ancestors depth b1 p room (plans_bytes qs ++ rest) e w d,
            items_read vs b1 ancestors depth b' m qs room rest f ws d,
          )
          refl

    fields_read :
        (fs : Fields) (target : DecodedFields) (b : Budget) (ancestors : List ℕ) (depth : ℕ)
        (b' : Budget) (n : ℕ) (es : Entries) (room : ℕ) (rest : List ℕ)
        → plan_fields fs b ancestors depth ≡ ok (b', n, es)
        → AreWireFields fs
        → Fresh target fs
        → room + depth ≡ 64
        → decode_fields key_text
            (decode_value_at key_text room 100000)
            (count_fields fs)
            target
            b.remaining_items
            (entries_bytes es ++ rest)
          ≡ ok (join_fields target (image_fields fs), b'.remaining_items, rest)
    fields_read end target b ancestors depth b' n es room rest h w free d =
        let e : no_entries ≡ es = cc in
        let f : b ≡ b' = cc in rw (← e, ← f, join_fields_no_fields target) refl
    fields_read (field key v fs) target b ancestors depth b' n es room rest h (l, t, a, w, ws)
          (free, frees) d =
        let (b0, b1, p, m, more, c, e, f, g, k) =
          fields_planned key v fs b ancestors depth b' n es h in
        let (paid, same) = consume_bytes-ok b (4 + length (utf8 key)) b0 c in
        let reads = value_read v b0 ancestors depth b1 p room (entries_bytes more ++ rest) e w d in
        rw
          (
            k,
            entry_assoc (utf8 key) (plan_bytes p) (entries_bytes more) rest,
            decode_fields_step key_text (decode_value_at key_text room 100000) (count_fields fs)
                target b.remaining_items b1.remaining_items key (utf8 key) (plan_bytes p)
                (entries_bytes more ++ rest) (image v) l t free (rw same at reads),
            fields_read fs (add_member key (image v) target) b1 ancestors depth b' m more room rest
                f ws (Fresh-add_member key (image v) target fs frees a) d,
            join_fields-add_member key (image v) target (image_fields fs),
          )
          refl

  -- A value that has been planned is read back at its place, whatever stands before and behind it.
  pub decode_value-planned :
      (v : Value) (limit : ℕ) (p : Plan) (before rest : List ℕ)
      → plan_value_with_limit v limit ≡ ok p
      → IsWire v
      → decode_value key_text (before ++ (plan_bytes p ++ rest)) (length before) none none
        ≡ ok (image v, length before + length (plan_bytes p))
  unfolding plan_value_with_limit decode_value normalize_decode_limit
  decode_value-planned v limit p before rest e w =
      let (r, g, k) = >>=-eq-ok (plan_value v (new_budget limit) [] 0) _ e in
      let same : r.1 ≡ p = cc in
      let reads = value_read v (new_budget limit) [] 0 r.0 r.1 64 rest g w refl in
      let there = rw same at reads in
      rw (drop-append before (plan_bytes p ++ rest), there)
        (ap (λ n. ok (image v, n))
          (omega (
            arith,
            length-append before (plan_bytes p ++ rest),
            length-append (plan_bytes p) rest,
          )))

  -- The decoder gives a value back, as `image` says, and stops at its end, where the encoder has
  -- encoded it and what it holds can be sent; whatever bytes follow.
  pub decode_value-encode_value :
      (v : Value) (encoded rest : List ℕ)
      → encode_value v ≡ ok encoded
      → IsWire v
      → decode_value key_text (encoded ++ rest) 0 none none ≡ ok (image v, length encoded)
  unfolding encode_value encode_value_with_limit
  decode_value-encode_value v encoded rest h w =
      let (p, e, f) = >>=-eq-ok (plan_value_with_limit v max_safe_integer) _ h in
      let written = write_value_plan-ok p encoded f in
      subst (λ bs. decode_value key_text (bs ++ rest) 0 none none ≡ ok (image v, length bs)) written
        (decode_value-planned v max_safe_integer p [] rest e w
          ∙ ap (λ (n : ℕ). ok (image v, n)) (omega arith))
