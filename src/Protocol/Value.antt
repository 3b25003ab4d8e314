-- ===== src/Protocol/Value.antt =====
-- The values of the native protocol: src/protocol-value.ts and src/protocol-map-key.ts, and the
-- plan types of src/protocol-constants.ts. Here the data; Encode and Decode hold the two routines.
pub mod Encode
pub mod Decode
pub mod Planned
pub mod Written
pub mod Lengths
pub mod Reading
pub mod Scalars
pub mod Containers
pub mod RoundTrip
pub mod Limits
pub mod Bounded
pub mod Runs
use ferricstore_typescript.Common.{ℕ, ◌-◌, ◌^◌, Bool, Option, List}
use ferricstore_typescript.Common.Words.{ℤ}

abbrev pub default_max_value_items : ℕ
default_max_value_items = 100000

abbrev pub default_max_value_depth : ℕ
default_max_value_depth = 64

-- NULL_U32
abbrev pub null_u32 : ℕ
null_u32 = 4294967295

abbrev pub max_safe_integer : ℕ
max_safe_integer = 2 ^ 53 - 1

-- A JavaScript value as the encoder tells its kinds apart. A number with an integer value, other
-- than -0, is that integer; any other number is its 64 bits. A string is its UTF-16 code units,
-- and a symbol its description, if it has one. A container carries the identity of its object, so
-- that one which contains itself has, in some depth, a container with the identity of one around
-- it.
mutual
  pub data Value : Type 0 where
    nullish : Value
    boolean : Bool → Value
    integer : ℤ → Value
    bigint : ℤ → Value
    double : ℕ → Value
    text : List ℕ → Value
    bytes : List ℕ → Value
    array : ℕ → Items → Value
    object : ℕ → Fields → Value
    symbol : Option (List ℕ) → Value
    unsupported : Value

  -- `hole` is an index that the array does not own.
  pub data Items : Type 0 where
    nil : Items
    cons : Value → Items → Items
    hole : Items → Items

  pub data Fields : Type 0 where
    end : Fields
    field : List ℕ → Value → Fields → Fields

-- `EncodeValuePlan`, by tag, with its byte length where it is not fixed. The bytes of a text are
-- those that it has in UTF-8.
mutual
  pub data Plan : Type 0 where
    tag_only : ℕ → Plan
    signed : ℤ → Plan
    binary : List ℕ → Plan
    items : ℕ → Plans → Plan
    entries : ℕ → Entries → Plan
    double_bits : ℕ → Plan
    unsigned : ℕ → Plan

  pub data Plans : Type 0 where
    no_plans : Plans
    plan : Plan → Plans → Plans

  -- A key's bytes and the plan of its value.
  pub data Entries : Type 0 where
    no_entries : Entries
    entry : List ℕ → Plan → Entries → Entries

-- What the decoder gives. A key is a string; an integer is a number or, outside the safe range, a
-- bigint.
mutual
  pub data Decoded : Type 0 where
    null_value : Decoded
    truth : Bool → Decoded
    number : ℤ → Decoded
    big : ℤ → Decoded
    buffer : List ℕ → Decoded
    list : DecodedItems → Decoded
    record_of : DecodedFields → Decoded
    float : ℕ → Decoded

  pub data DecodedItems : Type 0 where
    no_items : DecodedItems
    item : Decoded → DecodedItems → DecodedItems

  pub data DecodedFields : Type 0 where
    no_fields : DecodedFields
    member : List ℕ → Decoded → DecodedFields → DecodedFields

pub data Error : Type 0 where
  circular nesting container_items total_items not_dense : Error
  unsafe_integer integer_range unsupported_type length_range : Error
  frame_too_large : ℕ → Error
  truncated null_length bad_key : Error
  duplicate_key : List ℕ → Error
  unknown_tag : ℕ → Error
