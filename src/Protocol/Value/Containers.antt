-- ===== src/Protocol/Value/Containers.antt =====
-- What the decoder reads where the encoder has written a container, and the object it fills.
use ferricstore_typescript.Common.{
  ==_iff, ℕ, suc, ◌-◌, ◌^◌, ◌≤◌, ◌<◌, ◌≡◌, refl, ap, inl, inr, false, Bool-cases, Option, some,
  List, ◌++◌, ◌==◌, length,
}
use mathlib.Core.List.{append_assoc}
use ferricstore_typescript.Common.Words.{to_be}
use ferricstore_typescript.Common.Results.{ok}
use ferricstore_typescript.Protocol.Frame.{bytes_eq}
use ferricstore_typescript.Protocol.Value.{
  Items, nil, cons, hole, Fields, end, field, Plans, no_plans, Entries, no_entries, Decoded, list,
  record_of, DecodedItems, DecodedFields, no_fields, member, null_u32,
}
use ferricstore_typescript.Protocol.Value.Encode.{
  Budget, plan_items, plan_fields, count_items, count_fields, count_plans, count_entries,
}
use ferricstore_typescript.Protocol.Value.Decode.{
  Reads, decode_items, decode_fields, decode_array, decode_object, has_key, add_member,
  set_text_entry, set_protocol_map_entry,
}
use ferricstore_typescript.Protocol.Value.Planned.{items_planned, fields_planned}
use ferricstore_typescript.Protocol.Value.Reading.{
  read_word_4, read_binary-write, require_value_container-ok, decode_three_eq_items,
}

pub count_plans_eq :
    (vs : Items) (b : Budget) (ancestors : List ℕ) (depth : ℕ) (b' : Budget) (n : ℕ) (ps : Plans)
    → plan_items vs b ancestors depth ≡ ok (b', n, ps)
    → count_plans ps ≡ count_items vs
unfolding plan_items count_plans count_items
count_plans_eq nil b ancestors depth b' n ps h = let e : no_plans ≡ ps = cc in rw (← e) refl
count_plans_eq (hole vs) b ancestors depth b' n ps h = cc
count_plans_eq (cons v vs) b ancestors depth b' n ps h =
    let (b1, p, m, qs, e, f, g, k) = items_planned v vs b ancestors depth b' n ps h in
    rw k (ap suc (count_plans_eq vs b1 ancestors depth b' m qs f))

pub count_entries_eq :
    (fs : Fields) (b : Budget) (ancestors : List ℕ) (depth : ℕ) (b' : Budget) (n : ℕ) (es : Entries)
    → plan_fields fs b ancestors depth ≡ ok (b', n, es)
    → count_entries es ≡ count_fields fs
unfolding plan_fields count_entries count_fields
count_entries_eq end b ancestors depth b' n es h = let e : no_entries ≡ es = cc in rw (← e) refl
count_entries_eq (field key v fs) b ancestors depth b' n es h =
    let (b0, b1, p, m, rest, c, e, f, g, k) = fields_planned key v fs b ancestors depth b' n es h in
    rw k (ap suc (count_entries_eq fs b1 ancestors depth b' m rest f))

-- The members of an object, and then those of another.
abbrev pub join_fields : DecodedFields → DecodedFields → DecodedFields
join_fields no_fields gs = gs
join_fields (member k v fs) gs = member k v (join_fields fs gs)

pub join_fields-add_member :
    (key : List ℕ) (d : Decoded) (target gs : DecodedFields)
    → join_fields (add_member key d target) gs ≡ join_fields target (member key d gs)
unfolding add_member
join_fields-add_member key d no_fields gs = refl
join_fields-add_member key d (member k v fs) gs =
    ap (member k v) (join_fields-add_member key d fs gs)

pub join_fields_no_fields : (target : DecodedFields) → join_fields target no_fields ≡ target
join_fields_no_fields no_fields = refl
join_fields_no_fields (member k v fs) = ap (member k v) (join_fields_no_fields fs)

pub has_key-add_member :
    (key new : List ℕ) (d : Decoded) (target : DecodedFields)
    → has_key key target ≡ false
    → bytes_eq new key ≡ false
    → has_key key (add_member new d target) ≡ false
unfolding has_key add_member
has_key-add_member key new d no_fields h k = rw k refl
has_key-add_member key new d (member k1 v fs) h k = elim (Bool-cases (bytes_eq k1 key)) [
  | inl e ↦ (let z = rw e at h in cc)
  | inr e ↦ rw e (has_key-add_member key new d fs (rw e at h) k)
]

-- No key of the fields is `key`.
abbrev pub Apart : List ℕ → Fields → Type 0
Apart key end = Unit {0}
Apart key (field k v fs) = (bytes_eq key k ≡ false) × Apart key fs

-- No key of the fields is in the object.
abbrev pub Fresh : DecodedFields → Fields → Type 0
Fresh target end = Unit {0}
Fresh target (field k v fs) = (has_key k target ≡ false) × Fresh target fs

pub Fresh-no_fields : (fs : Fields) → Fresh no_fields fs
unfolding has_key
Fresh-no_fields end = tt
Fresh-no_fields (field k v fs) = (refl, Fresh-no_fields fs)

pub Fresh-add_member :
    (key : List ℕ) (d : Decoded) (target : DecodedFields) (fs : Fields)
    → Fresh target fs
    → Apart key fs
    → Fresh (add_member key d target) fs
Fresh-add_member key d target end h k = tt
Fresh-add_member key d target (field k1 v fs) (h, hs) (k, ks) =
    (has_key-add_member k1 key d target h k, Fresh-add_member key d target fs hs ks)

module _ (key_text : List ℕ → Option (List ℕ)) where
  pub array_read :
      (count room max_items left left1 : ℕ) (inner : ℕ → List ℕ → Reads Decoded)
      (body rest : List ℕ) (is : DecodedItems)
      → count < 2 ^ 32
      → count ≤ max_items
      → count ≤ left
      → decode_items inner count (left - count) (body ++ rest) ≡ ok (is, left1, rest)
      → decode_array key_text (suc room) max_items inner left ((to_be 4 count ++ body) ++ rest)
        ≡ ok (list is, left1, rest)
  unfolding decode_array
  array_read count room max_items left left1 inner body rest is h k l reads =
      rw
        (
          append_assoc (to_be 4 count) body rest,
          read_word_4 count (body ++ rest) h,
          require_value_container-ok count room max_items left k l,
        )
        (elim (Bool-cases (count == 3)) [
          | inl e ↦
              (let three : count ≡ 3 = (==_iff count 3).0 e in
                rw (e, decode_three_eq_items inner (left - count) (body ++ rest))
                  (let again = rw three at reads in rw (three, again) refl))
          | inr e ↦ rw (e, reads) refl
        ])

  pub object_read :
      (count room max_items left left1 : ℕ) (inner : ℕ → List ℕ → Reads Decoded)
      (body rest : List ℕ) (gs : DecodedFields)
      → count < 2 ^ 32
      → count ≤ max_items
      → count ≤ left
      → decode_fields key_text inner count no_fields (left - count) (body ++ rest)
        ≡ ok (gs, left1, rest)
      → decode_object key_text (suc room) max_items inner left ((to_be 4 count ++ body) ++ rest)
        ≡ ok (record_of gs, left1, rest)
  unfolding decode_object
  object_read count room max_items left left1 inner body rest gs h k l reads =
      rw
        (
          append_assoc (to_be 4 count) body rest,
          read_word_4 count (body ++ rest) h,
          require_value_container-ok count room max_items left k l,
          reads,
        )
        refl

  -- The loop over the fields reads one field.
  pub decode_fields_step :
      (inner : ℕ → List ℕ → Reads Decoded) (count : ℕ) (target : DecodedFields) (left left1 : ℕ)
      (name key value tail : List ℕ) (d : Decoded)
      → length key < null_u32
      → key_text key ≡ some name
      → has_key name target ≡ false
      → inner left (value ++ tail) ≡ ok (d, left1, tail)
      → decode_fields key_text inner
          (suc count)
          target
          left
          (to_be 4 (length key) ++ (key ++ (value ++ tail)))
        ≡ decode_fields key_text inner count (add_member name d target) left1 tail
  unfolding decode_fields set_protocol_map_entry set_text_entry
  decode_fields_step inner count target left left1 name key value tail d h k free reads =
      rw (read_binary-write key (value ++ tail) h, reads, k, free) refl
