-- ===== src/Protocol/Value/Planned.antt =====
-- What a plan that has been made says of the value and of the budget.
use ferricstore_typescript.Common.{
  ℕ, ◌+◌, ◌-◌, ◌≤◌, ◌<◌, ◌≡◌, sym, ap, ◌∙◌, List, ◌∷◌, ltb, leb_false→lt, ltb_false→le, length,
  arith,
}
use ferricstore_typescript.Common.Results.{ok, >>=-eq-ok, throw_if-ok}
use ferricstore_typescript.Common.Utf8.{utf8}
use ferricstore_typescript.Protocol.Value.{
  Value, array, object, Items, cons, Fields, field, Plan, items, entries, Plans, plan, Entries,
  entry, frame_too_large,
}
use ferricstore_typescript.Protocol.Value.Encode.{
  Budget, byte_length, consume_bytes, plan_scalar, open_container, count_items, count_fields,
  plan_value, plan_items, plan_fields,
}

pub consume_bytes-ok :
    (b : Budget) (n : ℕ) (b' : Budget)
    → consume_bytes b n ≡ ok b'
    → (b.remaining_bytes ≡ b'.remaining_bytes + n) × (b'.remaining_items ≡ b.remaining_items)
unfolding consume_bytes
consume_bytes-ok b n b' h = ground arith

pub record Opened (b : Budget) (count depth : ℕ) (b' : Budget) : Type 0 where
  pub depth_lt : depth < 64
  pub count_le : count ≤ 100000
  pub room : count ≤ b.remaining_items
  pub items_eq : b'.remaining_items ≡ b.remaining_items - count
  pub paid : b.remaining_bytes ≡ b'.remaining_bytes + 5

pub open_container-Opened :
    (b : Budget) (id count : ℕ) (ancestors : List ℕ) (depth : ℕ) (b' : Budget)
    → open_container b id count ancestors depth ≡ ok b'
    → Opened b count depth b'
unfolding open_container
open_container-Opened b id count ancestors depth b' h =
    let (c, h1) = throw_if-ok _ _ _ _ h in
    let (d, h2) = throw_if-ok _ _ _ _ h1 in
    let (e, h3) = throw_if-ok _ _ _ _ h2 in
    let (f, h4) = throw_if-ok _ _ _ _ h3 in
    let (p, i) =
      consume_bytes-ok (record b { remaining_items = b.remaining_items - count }) 5 b' h4 in
    record {
      depth_lt = leb_false→lt 64 depth d;
      count_le = ltb_false→le 100000 count e;
      room = ltb_false→le _ _ f;
      items_eq = i;
      paid = p;
    }

plan_scalar-ok :
    (b : Budget) (p : Plan) (b' : Budget) (q : Plan)
    → plan_scalar b p ≡ ok (b', q)
    → (q ≡ p) × (consume_bytes b (byte_length p) ≡ ok b')
unfolding plan_scalar
plan_scalar-ok b p b' q h =
    let (b1, e, f) = >>=-eq-ok (consume_bytes b (byte_length p)) _ h in
    let g : b1 ≡ b' = cc in (cc, e ∙ ap ok g)

pub scalar_planned :
    (b : Budget) (p : Plan) (b' : Budget) (q : Plan)
    → plan_scalar b p ≡ ok (b', q)
    → (q ≡ p)
      × (b.remaining_bytes ≡ b'.remaining_bytes + byte_length p)
      × (b'.remaining_items ≡ b.remaining_items)
scalar_planned b p b' q h =
    let (e, c) = plan_scalar-ok b p b' q h in
    let (paid, same) = consume_bytes-ok b (byte_length p) b' c in (e, paid, same)

-- An array: the tests have passed, and the items have been planned.
pub array_planned :
    (id : ℕ) (vs : Items) (b : Budget) (ancestors : List ℕ) (depth : ℕ) (b' : Budget) (q : Plan)
    → plan_value (array id vs) b ancestors depth ≡ ok (b', q)
    → (b1 : Budget) × (n : ℕ) × (ps : Plans) × Opened b (count_items vs) depth b1
      × (plan_items vs b1 (id ∷ ancestors) (depth + 1) ≡ ok (b', n, ps))
      × (q ≡ items (5 + n) ps)
unfolding plan_value
array_planned id vs b ancestors depth b' q h =
    let (b1, e, h1) = >>=-eq-ok (open_container b id (count_items vs) ancestors depth) _ h in
    let (c, h2) =
      throw_if-ok (ltb b1.remaining_bytes (count_items vs)) (frame_too_large b1.max_bytes) _ _ h1 in
    let (r, f, h3) = >>=-eq-ok (plan_items vs b1 (id ∷ ancestors) (depth + 1)) _ h2 in
    let g : r.0 ≡ b' = cc in
    let k : items (5 + r.1) r.2 ≡ q = cc in
    (
      b1,
      r.1,
      r.2,
      open_container-Opened b id (count_items vs) ancestors depth b1 e,
      f ∙ ap (λ (x : Budget). ok (x, r.1, r.2)) g,
      sym k,
    )

pub object_planned :
    (id : ℕ) (fs : Fields) (b : Budget) (ancestors : List ℕ) (depth : ℕ) (b' : Budget) (q : Plan)
    → plan_value (object id fs) b ancestors depth ≡ ok (b', q)
    → (b1 : Budget) × (n : ℕ) × (es : Entries) × Opened b (count_fields fs) depth b1
      × (plan_fields fs b1 (id ∷ ancestors) (depth + 1) ≡ ok (b', n, es))
      × (q ≡ entries (5 + n) es)
unfolding plan_value
object_planned id fs b ancestors depth b' q h =
    let (b1, e, h1) = >>=-eq-ok (open_container b id (count_fields fs) ancestors depth) _ h in
    let (r, f, h3) = >>=-eq-ok (plan_fields fs b1 (id ∷ ancestors) (depth + 1)) _ h1 in
    let g : r.0 ≡ b' = cc in
    let k : entries (5 + r.1) r.2 ≡ q = cc in
    (
      b1,
      r.1,
      r.2,
      open_container-Opened b id (count_fields fs) ancestors depth b1 e,
      f ∙ ap (λ (x : Budget). ok (x, r.1, r.2)) g,
      sym k,
    )

pub items_planned :
    (v : Value) (vs : Items) (b : Budget) (ancestors : List ℕ) (depth : ℕ) (b' : Budget) (n : ℕ)
    (ps : Plans)
    → plan_items (cons v vs) b ancestors depth ≡ ok (b', n, ps)
    → (b1 : Budget) × (p : Plan) × (m : ℕ) × (qs : Plans) × (plan_value v b ancestors depth
        ≡ ok (b1, p))
      × (plan_items vs b1 ancestors depth ≡ ok (b', m, qs))
      × (n ≡ byte_length p + m)
      × (ps ≡ plan p qs)
unfolding plan_value
items_planned v vs b ancestors depth b' n ps h =
    let (r, e, h1) = >>=-eq-ok (plan_value v b ancestors depth) _ h in
    let (s, f, h2) = >>=-eq-ok (plan_items vs r.0 ancestors depth) _ h1 in
    let g : s.0 ≡ b' = cc in
    let k : byte_length r.1 + s.1 ≡ n = cc in
    let l : plan r.1 s.2 ≡ ps = cc in
    (r.0, r.1, s.1, s.2, e, f ∙ ap (λ (x : Budget). ok (x, s.1, s.2)) g, sym k, sym l)

pub fields_planned :
    (key : List ℕ) (v : Value) (fs : Fields) (b : Budget) (ancestors : List ℕ) (depth : ℕ)
    (b' : Budget) (n : ℕ) (es : Entries)
    → plan_fields (field key v fs) b ancestors depth ≡ ok (b', n, es)
    → (b0 : Budget) × (b1 : Budget) × (p : Plan) × (m : ℕ) × (rest : Entries) × (consume_bytes b
          (4 + length (utf8 key))
        ≡ ok b0)
      × (plan_value v b0 ancestors depth ≡ ok (b1, p))
      × (plan_fields fs b1 ancestors depth ≡ ok (b', m, rest))
      × (n ≡ 4 + length (utf8 key) + byte_length p + m)
      × (es ≡ entry (utf8 key) p rest)
unfolding plan_value
fields_planned key v fs b ancestors depth b' n es h =
    let (b0, d, h0) = >>=-eq-ok (consume_bytes b (4 + length (utf8 key))) _ h in
    let (r, e, h1) = >>=-eq-ok (plan_value v b0 ancestors depth) _ h0 in
    let (s, f, h2) = >>=-eq-ok (plan_fields fs r.0 ancestors depth) _ h1 in
    let g : s.0 ≡ b' = cc in
    let k : 4 + length (utf8 key) + byte_length r.1 + s.1 ≡ n = cc in
    let l : entry (utf8 key) r.1 s.2 ≡ es = cc in
    (b0, r.0, r.1, s.1, s.2, d, e, f ∙ ap (λ (x : Budget). ok (x, s.1, s.2)) g, sym k, sym l)
