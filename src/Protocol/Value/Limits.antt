-- ===== src/Protocol/Value/Limits.antt =====
-- The limits of the decoder: how deep a value may nest, and how many members it may have.
use ferricstore_typescript.Common.{
  ℕ, zero, suc, ◌+◌, ◌≤◌, ◌≡◌, ◌≢◌, ◌⊎◌, inl, inr, max, refl, Bool, true, false, Bool-cases,
  if_cases, Option, none, some, List, ltb, ◌==◌, if◌then◌else◌, arith,
}
use ferricstore_typescript.Common.Words.{ℤ}
use ferricstore_typescript.Common.Results.{ok, >>=-eq-ok, throw_if-ok}
use ferricstore_typescript.Protocol.Value.{
  Decoded, null_value, truth, number, big, buffer, list, record_of, float, DecodedItems, no_items,
  item, DecodedFields, no_fields, member, nesting, container_items,
}
use ferricstore_typescript.Protocol.Value.Encode.{is_safe}
use ferricstore_typescript.Protocol.Value.Decode.{
  Reads, consume_decode_items, require_value_container, integer_value, has_key, add_member,
  set_text_entry, decode_items,
}

-- The members of all containers in a value.
abbrev mutual
  pub member_count : Decoded → ℕ
  member_count null_value = 0
  member_count (truth b) = 0
  member_count (number z) = 0
  member_count (big z) = 0
  member_count (buffer bs) = 0
  member_count (float n) = 0
  member_count (list is) = item_count is
  member_count (record_of fs) = field_count fs

  pub item_count : DecodedItems → ℕ
  item_count no_items = 0
  item_count (item d is) = 1 + member_count d + item_count is

  pub field_count : DecodedFields → ℕ
  field_count no_fields = 0
  field_count (member k d fs) = 1 + member_count d + field_count fs

-- How deep the containers in a value nest.
abbrev mutual
  pub depth : Decoded → ℕ
  depth null_value = 0
  depth (truth b) = 0
  depth (number z) = 0
  depth (big z) = 0
  depth (buffer bs) = 0
  depth (float n) = 0
  depth (list is) = 1 + depth_items is
  depth (record_of fs) = 1 + depth_fields fs

  pub depth_items : DecodedItems → ℕ
  depth_items no_items = 0
  depth_items (item d is) = max (depth d) (depth_items is)

  pub depth_fields : DecodedFields → ℕ
  depth_fields no_fields = 0
  depth_fields (member k d fs) = max (depth d) (depth_fields fs)

-- What is read costs as many items as it has members, and nests within the room.
abbrev pub Costs : Decoded → ℕ → ℕ → ℕ → Type 0
Costs d room left left1 = (member_count d + left1 ≡ left) × (depth d ≤ room)

abbrev pub KeepsLimits : (ℕ → List ℕ → Reads Decoded) → ℕ → Type 0
KeepsLimits inner room =
    (left : ℕ) (input : List ℕ) (d : Decoded) (left1 : ℕ) (rest : List ℕ)
    → inner left input ≡ ok (d, left1, rest)
    → Costs d room left left1

pub field_count-add_member :
    (key : List ℕ) (d : Decoded) (fs : DecodedFields)
    → field_count (add_member key d fs) ≡ 1 + member_count d + field_count fs
unfolding add_member
field_count-add_member key d no_fields = refl
field_count-add_member key d (member k v fs) = omega (arith, field_count-add_member key d fs)

pub depth_fields-add_member :
    (key : List ℕ) (d : Decoded) (fs : DecodedFields) (room : ℕ)
    → depth d ≤ room
    → depth_fields fs ≤ room
    → depth_fields (add_member key d fs) ≤ room
unfolding add_member
depth_fields-add_member key d no_fields room h k = omega arith
depth_fields-add_member key d (member k1 v fs) room h k =
    omega (arith, depth_fields-add_member key d fs room h (omega arith))

pub set_text_entry-ok :
    (o : Option (List ℕ)) (d : Decoded) (target t : DecodedFields)
    → set_text_entry o d target ≡ ok t
    → (key : List ℕ) × (t ≡ add_member key d target)
unfolding set_text_entry
set_text_entry-ok none d target t h = cc
set_text_entry-ok (some key) d target t h = elim (Bool-cases (has_key key target)) [
  | inl e ↦ (let g = rw e at h in cc)
  | inr e ↦ (let g = rw e at h in (key, cc))
]

pub decode_items-Costs :
    (inner : ℕ → List ℕ → Reads Decoded) (room : ℕ)
    → KeepsLimits inner room
    → (count left : ℕ) (input : List ℕ) (is : DecodedItems) (left1 : ℕ) (rest : List ℕ)
    → decode_items inner count left input ≡ ok (is, left1, rest)
    → (item_count is + left1 ≡ left + count) × (depth_items is ≤ room)
unfolding decode_items
decode_items-Costs inner room keeps zero left input is left1 rest h =
    let e : no_items ≡ is = cc in
    let f : left ≡ left1 = cc in rw (← e, ← f) (omega arith, omega arith)
decode_items-Costs inner room keeps (suc count) left input is left1 rest h =
    let (r, e, h1) = >>=-eq-ok (inner left input) _ h in
    let (s, f, h2) = >>=-eq-ok (decode_items inner count r.1 r.2) _ h1 in
    let (a, b) = keeps left input r.0 r.1 r.2 e in
    let (c, g) = decode_items-Costs inner room keeps count r.1 r.2 s.0 s.1 s.2 f in
    let p : item r.0 s.0 ≡ is = cc in
    let q : s.1 ≡ left1 = cc in rw (← p, ← q) (omega arith, omega arith)

pub require_value_container-inv :
    (count room max_items left left1 : ℕ)
    → require_value_container count room max_items left ≡ ok left1
    → (room ≢ 0) × (left1 + count ≡ left)
unfolding require_value_container consume_decode_items
require_value_container-inv count room max_items left left1 h =
    let (a, h1) = throw_if-ok (room == 0) nesting _ _ h in
    let (b, h2) = throw_if-ok (ltb max_items count) container_items _ _ h1 in
    (ground arith, ground arith)

-- One of the branches.
pub if_inv : {A : Type 0} (b : Bool) (x y z : A) → (if b then x else y) ≡ z → (x ≡ z) ⊎ (y ≡ z)
if_inv true x y z h = inl h
if_inv false x y z h = inr h

pub read_scalar-Costs :
    (d0 : Decoded) (left : ℕ) (input : List ℕ) (room : ℕ) (d : Decoded) (left1 : ℕ) (rest : List ℕ)
    → member_count d0 ≡ 0
    → depth d0 ≡ 0
    → Path (Reads Decoded) (ok (d0, left, input)) (ok (d, left1, rest))
    → Costs d room left left1
read_scalar-Costs d0 left input room d left1 rest a b h =
    let e : d0 ≡ d = cc in let f : left ≡ left1 = cc in rw (← e, ← f) (omega arith, omega arith)

pub integer_value_scalar :
    (z : ℤ) → (member_count (integer_value z) ≡ 0) × (depth (integer_value z) ≡ 0)
unfolding integer_value
integer_value_scalar z =
    if_cases (λ d. (member_count d ≡ 0) × (depth d ≡ 0)) (is_safe z) (number z) (big z)
      (λ b. (refl, refl)) (λ b. (refl, refl))
