-- ===== src/Protocol/Value/Lengths.antt =====
-- The bytes that a plan announces are those that are written, and what the budget has paid.
use ferricstore_typescript.Common.{
  ℕ, ◌+◌, ◌^◌, ◌≤◌, ◌<◌, ◌≡◌, refl, inl, inr, true, false, Bool-cases, List, [], ◌∷◌, ◌++◌, ltb,
  length, length-append, arith,
}
use ferricstore_typescript.Common.Words.{ℤ, pos, negsuc, to_be}
use ferricstore_typescript.Common.Results.{ok, >>=-eq-ok}
use ferricstore_typescript.Common.Utf8.{utf8}
use ferricstore_typescript.Protocol.Value.{
  Value, nullish, boolean, integer, bigint, double, text, bytes, array, object, symbol, unsupported,
  Items, nil, cons, hole, Fields, end, field, Plan, tag_only, signed, binary, items, entries,
  double_bits, unsigned, Plans, Entries,
}
use ferricstore_typescript.Protocol.Value.Encode.{
  write_value_plan, Budget, byte_length, plan_scalar, is_safe, plan_bigint, plan_value, plan_items,
  plan_fields, int64_bytes, new_budget, plan_value_with_limit, count_plans, count_entries,
}
use ferricstore_typescript.Protocol.Value.Written.{
  write_value_plan_fits, plan_bytes, plans_bytes, entries_bytes,
}
use ferricstore_typescript.Protocol.Value.Planned.{
  scalar_planned, array_planned, object_planned, items_planned, fields_planned, consume_bytes-ok,
}

-- The announced bytes are written, and paid for.
abbrev pub Measured : Budget → Budget → ℕ → List ℕ → Type 0
Measured b b' announced written =
    (length written ≡ announced) × (b.remaining_bytes ≡ b'.remaining_bytes + announced)

length-int64_bytes : (z : ℤ) → length (int64_bytes z) ≡ 8
unfolding int64_bytes
length-int64_bytes (pos n) = refl
length-int64_bytes (negsuc n) = refl

-- The kinds of plan that stand for no container.
abbrev IsScalar : Plan → Type 0
IsScalar (items n ps) = ⊥
IsScalar (entries n es) = ⊥
IsScalar _ = Unit {0}

length_scalar : (p : Plan) → IsScalar p → length (plan_bytes p) ≡ byte_length p
unfolding plan_bytes
length_scalar (tag_only tag) s = omega arith
length_scalar (signed z) s = omega (arith, length-int64_bytes z)
length_scalar (binary bs) s = omega (arith, length-append (to_be 4 (length bs)) bs)
length_scalar (items n ps) s = absurd s
length_scalar (entries n es) s = absurd s
length_scalar (double_bits bits) s = omega arith
length_scalar (unsigned n) s = omega arith

scalar-Measured :
    (b : Budget) (p : Plan) (b' : Budget) (q : Plan)
    → IsScalar p
    → plan_scalar b p ≡ ok (b', q)
    → Measured b b' (byte_length q) (plan_bytes q)
scalar-Measured b p b' q s h =
    let (e, paid, same) = scalar_planned b p b' q h in rw e (length_scalar p s, paid)

bigint-Measured :
    (b : Budget) (z : ℤ) (b' : Budget) (q : Plan)
    → plan_bigint b z ≡ ok (b', q)
    → Measured b b' (byte_length q) (plan_bytes q)
unfolding plan_bigint
bigint-Measured b (negsuc n) b' q h = elim (Bool-cases (ltb n (2 ^ 63))) [
  | inl e ↦ scalar-Measured b (signed (negsuc n)) b' q tt (rw e at h)
  | inr e ↦ (let k = rw e at h in cc)
]
bigint-Measured b (pos n) b' q h = elim (Bool-cases (ltb n (2 ^ 63))) [
  | inl e ↦ scalar-Measured b (signed (pos n)) b' q tt (rw e at h)
  | inr e ↦ elim (Bool-cases (ltb n (2 ^ 64))) [
    | inl f ↦ scalar-Measured b (unsigned n) b' q tt (rw (e, f) at h)
    | inr f ↦ (let k = rw (e, f) at h in cc)
  ]
]

length_container :
    (tag count : ℕ) (body : List ℕ) (n : ℕ)
    → length body ≡ n
    → length (tag ∷ (to_be 4 count ++ body)) ≡ 5 + n
length_container tag count body n h = omega (arith, length-append (to_be 4 count) body)

length_entry :
    (key value rest : List ℕ) (n m : ℕ)
    → length value ≡ n
    → length rest ≡ m
    → length (to_be 4 (length key) ++ (key ++ (value ++ rest))) ≡ 4 + length key + n + m
length_entry key value rest n m h k = omega (
  arith,
  length-append (to_be 4 (length key)) (key ++ (value ++ rest)),
  length-append key (value ++ rest),
  length-append value rest,
)

mutual
  unfolding plan_value plan_bytes

  value-Measured :
      (v : Value) (b : Budget) (ancestors : List ℕ) (depth : ℕ) (b' : Budget) (q : Plan)
      → plan_value v b ancestors depth ≡ ok (b', q)
      → Measured b b' (byte_length q) (plan_bytes q)
  value-Measured nullish b ancestors depth b' q h = scalar-Measured b (tag_only 0) b' q tt h
  value-Measured (boolean true) b ancestors depth b' q h = scalar-Measured b (tag_only 1) b' q tt h
  value-Measured (boolean false) b ancestors depth b' q h = scalar-Measured b (tag_only 2) b' q tt h
  value-Measured (integer z) b ancestors depth b' q h = elim (Bool-cases (is_safe z)) [
    | inl e ↦ scalar-Measured b (signed z) b' q tt (rw e at h)
    | inr e ↦ (let k = rw e at h in cc)
  ]
  value-Measured (bigint z) b ancestors depth b' q h = bigint-Measured b z b' q h
  value-Measured (double bits) b ancestors depth b' q h =
      scalar-Measured b (double_bits bits) b' q tt h
  value-Measured (text units) b ancestors depth b' q h =
      scalar-Measured b (binary (utf8 units)) b' q tt h
  value-Measured (bytes bs) b ancestors depth b' q h = scalar-Measured b (binary bs) b' q tt h
  value-Measured (symbol description) b ancestors depth b' q h = cc
  value-Measured unsupported b ancestors depth b' q h = cc
  value-Measured (array id vs) b ancestors depth b' q h =
      let (b1, n, ps, o, e, k) = array_planned id vs b ancestors depth b' q h in
      let (l, paid) = items-Measured vs b1 (id ∷ ancestors) (depth + 1) b' n ps e in
      rw k (length_container 5 (count_plans ps) (plans_bytes ps) n l, omega (arith, o.paid))
  value-Measured (object id fs) b ancestors depth b' q h =
      let (b1, n, es, o, e, k) = object_planned id fs b ancestors depth b' q h in
      let (l, paid) = fields-Measured fs b1 (id ∷ ancestors) (depth + 1) b' n es e in
      rw k (length_container 6 (count_entries es) (entries_bytes es) n l, omega (arith, o.paid))

  items-Measured :
      (vs : Items) (b : Budget) (ancestors : List ℕ) (depth : ℕ) (b' : Budget) (n : ℕ) (ps : Plans)
      → plan_items vs b ancestors depth ≡ ok (b', n, ps)
      → Measured b b' n (plans_bytes ps)
  items-Measured nil b ancestors depth b' n ps h = ground arith
  items-Measured (hole vs) b ancestors depth b' n ps h = cc
  items-Measured (cons v vs) b ancestors depth b' n ps h =
      let (b1, p, m, qs, e, f, g, k) = items_planned v vs b ancestors depth b' n ps h in
      let (l1, paid1) = value-Measured v b ancestors depth b1 p e in
      let (l2, paid2) = items-Measured vs b1 ancestors depth b' m qs f in
      rw (g, k) (omega (arith, length-append (plan_bytes p) (plans_bytes qs)), omega arith)

  fields-Measured :
      (fs : Fields) (b : Budget) (ancestors : List ℕ) (depth : ℕ) (b' : Budget) (n : ℕ)
      (es : Entries)
      → plan_fields fs b ancestors depth ≡ ok (b', n, es)
      → Measured b b' n (entries_bytes es)
  fields-Measured end b ancestors depth b' n es h = ground arith
  fields-Measured (field key v fs) b ancestors depth b' n es h =
      let (b0, b1, p, m, rest, c, e, f, g, k) =
        fields_planned key v fs b ancestors depth b' n es h in
      let (paid0, same) = consume_bytes-ok b (4 + length (utf8 key)) b0 c in
      let (l1, paid1) = value-Measured v b0 ancestors depth b1 p e in
      let (l2, paid2) = fields-Measured fs b1 ancestors depth b' m rest f in
      rw (g, k) (length_entry (utf8 key) (plan_bytes p) (entries_bytes rest) _ _ l1 l2, omega arith)

-- What is announced fits the limit.
pub byte_length_within :
    (v : Value) (limit : ℕ) (p : Plan)
    → plan_value_with_limit v limit ≡ ok p
    → (length (plan_bytes p) ≡ byte_length p) × (byte_length p ≤ limit)
unfolding plan_value_with_limit
byte_length_within v limit p h =
    let (r, e, f) = >>=-eq-ok (plan_value v (new_budget limit) [] 0) _ h in
    let (l, paid) = value-Measured v (new_budget limit) [] 0 r.0 r.1 e in
    let g : r.1 ≡ p = cc in rw (← g) (l, omega arith)

-- A plan that has been made for a value, in whatever budget and at whatever depth, and that
-- announces fewer than 2^32 bytes, is written without an error, as exactly the number of bytes that
-- it announces, and that number is what the budget of bytes has lost.
pub write_value_plan-plan_value :
    (v : Value) (b : Budget) (ancestors : List ℕ) (depth : ℕ) (b' : Budget) (p : Plan)
    → plan_value v b ancestors depth ≡ ok (b', p)
    → byte_length p < 2 ^ 32
    → (written : List ℕ) × (write_value_plan p ≡ ok written)
      × (length written ≡ byte_length p)
      × (b.remaining_bytes ≡ b'.remaining_bytes + length written)
write_value_plan-plan_value v b ancestors depth b' p h few =
    let (l, paid) = value-Measured v b ancestors depth b' p h in
    (plan_bytes p, write_value_plan_fits p (omega arith), l, omega arith)
