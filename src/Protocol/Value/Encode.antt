-- ===== src/Protocol/Value/Encode.antt =====
-- The encoder: it plans a value against a budget, and then writes the plan.
use ferricstore_typescript.Common.{
  ℕ, suc, ◌+◌, ◌-◌, ◌^◌, Bool, true, false, ◌||◌, List, [], ◌∷◌, ◌++◌, ltb, leb, ◌==◌,
  if◌then◌else◌, length,
}
use ferricstore_typescript.Common.Words.{ℤ, pos, negsuc, to_be}
use ferricstore_typescript.Common.Results.{Result, ok, err, ◌>>=◌, ◌>>◌, throw_if}
use ferricstore_typescript.Common.Utf8.{utf8}
use ferricstore_typescript.Protocol.Value.{
  Value, nullish, boolean, integer, bigint, double, text, bytes, array, object, unsupported, Items,
  nil, cons, hole, Fields, end, field, Plan, tag_only, signed, binary, items, entries, double_bits,
  unsigned, Plans, no_plans, plan, Entries, no_entries, entry, Error, circular, nesting,
  container_items, total_items, not_dense, unsafe_integer, integer_range, unsupported_type,
  frame_too_large, length_range, symbol, default_max_value_items, default_max_value_depth,
  max_safe_integer,
}

pub record Budget : Type 0 where
  pub max_bytes : ℕ
  pub remaining_bytes : ℕ
  pub remaining_items : ℕ

abbrev pub byte_length : Plan → ℕ
byte_length (tag_only tag) = 1
byte_length (signed z) = 9
byte_length (binary bs) = 5 + length bs
byte_length (items n ps) = n
byte_length (entries n es) = n
byte_length (double_bits bits) = 9
byte_length (unsigned n) = 9

unfoldable pub consume_bytes : Budget → ℕ → Result Error Budget
consume_bytes b n =
    if ltb b.remaining_bytes n
    then err (frame_too_large b.max_bytes)
    else ok (record b { remaining_bytes = b.remaining_bytes - n })

-- A plan of one kind and its cost.
unfoldable pub plan_scalar : Budget → Plan → Result Error (Budget × Plan)
plan_scalar b p = do b1 ← consume_bytes b (byte_length p); ok (b1, p)

unfoldable pub is_safe : ℤ → Bool
is_safe (pos n) = leb n max_safe_integer
is_safe (negsuc n) = leb (n + 1) max_safe_integer

unfoldable pub plan_bigint : Budget → ℤ → Result Error (Budget × Plan)
plan_bigint b (negsuc n) =
    if ltb n (2 ^ 63) then plan_scalar b (signed (negsuc n)) else err integer_range
plan_bigint b (pos n) =
    if ltb n (2 ^ 63)
    then plan_scalar b (signed (pos n))
    else if ltb n (2 ^ 64)
    then plan_scalar b (unsigned n)
    else err integer_range

unfoldable pub is_among : ℕ → List ℕ → Bool
is_among id [] = false
is_among id (a ∷ ancestors) = (a == id) || is_among id ancestors

-- The tests on a container of `count` members, and the cost of its tag and count.
unfoldable pub open_container : Budget → ℕ → ℕ → List ℕ → ℕ → Result Error Budget
open_container b id count ancestors depth = do
  throw_if (is_among id ancestors) circular
  throw_if (leb default_max_value_depth depth) nesting
  throw_if (ltb default_max_value_items count) container_items
  throw_if (ltb b.remaining_items count) total_items
  consume_bytes (record b { remaining_items = b.remaining_items - count }) 5

unfoldable pub count_items : Items → ℕ
count_items nil = 0
count_items (cons v vs) = suc (count_items vs)
count_items (hole vs) = suc (count_items vs)

unfoldable pub count_fields : Fields → ℕ
count_fields end = 0
count_fields (field k v fs) = suc (count_fields fs)

-- `planValueAt`. The loops give the budget, the bytes of the members, and their plans.
unfoldable mutual
  pub plan_value : Value → Budget → List ℕ → ℕ → Result Error (Budget × Plan)
  plan_value nullish b ancestors depth = plan_scalar b (tag_only 0)
  plan_value (boolean true) b ancestors depth = plan_scalar b (tag_only 1)
  plan_value (boolean false) b ancestors depth = plan_scalar b (tag_only 2)
  plan_value (integer z) b ancestors depth =
      if is_safe z then plan_scalar b (signed z) else err unsafe_integer
  plan_value (bigint z) b ancestors depth = plan_bigint b z
  plan_value (double bits) b ancestors depth = plan_scalar b (double_bits bits)
  plan_value (text units) b ancestors depth = plan_scalar b (binary (utf8 units))
  plan_value (bytes bs) b ancestors depth = plan_scalar b (binary bs)
  plan_value (symbol description) b ancestors depth = err unsupported_type
  plan_value unsupported b ancestors depth = err unsupported_type
  plan_value (array id vs) b ancestors depth = do
    b1 ← open_container b id (count_items vs) ancestors depth
    throw_if (ltb b1.remaining_bytes (count_items vs)) (frame_too_large b1.max_bytes)
    r ← plan_items vs b1 (id ∷ ancestors) (depth + 1)
    ok (r.0, items (5 + r.1) r.2)
  plan_value (object id fs) b ancestors depth = do
    b1 ← open_container b id (count_fields fs) ancestors depth
    r ← plan_fields fs b1 (id ∷ ancestors) (depth + 1)
    ok (r.0, entries (5 + r.1) r.2)

  pub plan_items : Items → Budget → List ℕ → ℕ → Result Error (Budget × ℕ × Plans)
  plan_items nil b ancestors depth = ok (b, 0, no_plans)
  plan_items (hole vs) b ancestors depth = err not_dense
  plan_items (cons v vs) b ancestors depth = do
    r ← plan_value v b ancestors depth
    s ← plan_items vs r.0 ancestors depth
    ok (s.0, byte_length r.1 + s.1, plan r.1 s.2)

  pub plan_fields : Fields → Budget → List ℕ → ℕ → Result Error (Budget × ℕ × Entries)
  plan_fields end b ancestors depth = ok (b, 0, no_entries)
  plan_fields (field k v fs) b ancestors depth = do
    b1 ← consume_bytes b (4 + length (utf8 k))
    r ← plan_value v b1 ancestors depth
    s ← plan_fields fs r.0 ancestors depth
    ok (s.0, 4 + length (utf8 k) + byte_length r.1 + s.1, entry (utf8 k) r.1 s.2)

-- `writeBigInt64BE`
unfoldable pub int64_bytes : ℤ → List ℕ
int64_bytes (pos n) = to_be 8 n
int64_bytes (negsuc n) = to_be 8 (2 ^ 64 - (n + 1))

unfoldable pub count_plans : Plans → ℕ
count_plans no_plans = 0
count_plans (plan p ps) = suc (count_plans ps)

unfoldable pub count_entries : Entries → ℕ
count_entries no_entries = 0
count_entries (entry k p es) = suc (count_entries es)

-- `writeUInt32BE` throws on what has no place in four bytes.
unfoldable pub write_word : ℕ → Result Error (List ℕ)
write_word n = if leb (2 ^ 32) n then err length_range else ok (to_be 4 n)

-- `writeValuePlan`: the bytes that it writes, one behind the other from `start` on. The planner has
-- seen to it that integers fit.
unfoldable mutual
  pub write_value_plan : Plan → Result Error (List ℕ)
  write_value_plan (tag_only tag) = ok (tag ∷ [])
  write_value_plan (signed z) = ok (3 ∷ int64_bytes z)
  write_value_plan (binary bs) = do size ← write_word (length bs); ok (4 ∷ (size ++ bs))
  write_value_plan (items n ps) = do
    count ← write_word (count_plans ps)
    body ← write_plans ps
    ok (5 ∷ (count ++ body))
  write_value_plan (entries n es) = do
    count ← write_word (count_entries es)
    body ← write_entries es
    ok (6 ∷ (count ++ body))
  write_value_plan (double_bits bits) = ok (7 ∷ to_be 8 bits)
  write_value_plan (unsigned n) = ok (8 ∷ to_be 8 n)

  pub write_plans : Plans → Result Error (List ℕ)
  write_plans no_plans = ok []
  write_plans (plan p ps) = do
    first ← write_value_plan p
    others ← write_plans ps
    ok (first ++ others)

  pub write_entries : Entries → Result Error (List ℕ)
  write_entries no_entries = ok []
  write_entries (entry k p es) = do
    size ← write_word (length k)
    value ← write_value_plan p
    others ← write_entries es
    ok (size ++ (k ++ (value ++ others)))

abbrev pub new_budget : ℕ → Budget
new_budget max_bytes = record {
  max_bytes = max_bytes;
  remaining_bytes = max_bytes;
  remaining_items = default_max_value_items;
}

unfoldable pub plan_value_with_limit : Value → ℕ → Result Error Plan
plan_value_with_limit v max_bytes = do r ← plan_value v (new_budget max_bytes) [] 0; ok r.1

unfoldable pub encode_value_with_limit : Value → ℕ → Result Error (List ℕ)
encode_value_with_limit v max_bytes = do p ← plan_value_with_limit v max_bytes; write_value_plan p

unfoldable pub encode_value : Value → Result Error (List ℕ)
encode_value v = encode_value_with_limit v max_safe_integer
