-- ===== src/UnknownFields.antt =====
-- codec/unknownproto/unknown_fields.go: the traversal of an encoded message that refuses fields which
-- its type does not know.
pub mod Fuel
pub mod Inside
pub mod Known
use plugchain_sdk_go.Prelude.{
  ℕ, zero, suc, ◌/◌, ◌%◌, Bool, true, false, not, ◌||◌, ◌==◌, if◌then◌else◌, List, [], ◌∷◌, length,
  take, drop, Option, none, some, Result, ok, err, panic, Error, Panic, slice_out_of_range,
  no_descriptor, invalid_length, mismatched_wire_type, unknown_field, no_type_name,
  unregistered_type,
}
use plugchain_sdk_go.Denom.{denom_eq}

-- `FieldDescriptorProto_Type`
pub data FieldType : Type 0 where
  double float int64 uint64 int32 fixed64 fixed32 bool string group message bytes uint32 enum :
      FieldType
  sfixed32 sfixed64 sint32 sint64 : FieldType

-- What the traversal reads of a field's descriptor.
pub record Field : Type 0 where
  pub number : ℕ
  pub field_type : FieldType
  pub type_name : List ℕ

-- The rows of `checks`; each is a wire type, with the field types that it can encode.
unfoldable pub is_varint : FieldType → Bool
is_varint int32 = true
is_varint int64 = true
is_varint uint32 = true
is_varint uint64 = true
is_varint sint32 = true
is_varint sint64 = true
is_varint bool = true
is_varint enum = true
is_varint _ = false

unfoldable pub is_64_bit : FieldType → Bool
is_64_bit fixed64 = true
is_64_bit sfixed64 = true
is_64_bit double = true
is_64_bit _ = false

unfoldable pub is_delimited : FieldType → Bool
is_delimited fixed32 = false
is_delimited sfixed32 = false
is_delimited float = false
is_delimited group = false
is_delimited _ = true

unfoldable pub is_group : FieldType → Bool
is_group group = true
is_group _ = false

unfoldable pub is_32_bit : FieldType → Bool
is_32_bit fixed32 = true
is_32_bit sfixed32 = true
is_32_bit float = true
is_32_bit _ = false

unfoldable pub can_encode_type : ℕ → FieldType → Bool
unfolding is_varint is_64_bit is_delimited is_group is_32_bit
can_encode_type wire t =
    if wire == 0
    then is_varint t
    else if wire == 1
    then is_64_bit t
    else if wire == 2
    then is_delimited t
    else if wire == 3 || wire == 4
    then is_group t
    else if wire == 5
    then is_32_bit t
    else false

-- `tagNum & bit11NonCritical == 0`
unfoldable pub is_critical : ℕ → Bool
is_critical tag = tag / 1024 % 2 == 0

-- The index that `getDescriptorInfo` builds: of two fields with one number, the later counts.
unfoldable pub field_of : List Field → ℕ → Option Field
field_of [] tag = none
field_of (f ∷ fs) tag = elim (field_of fs tag) [
  | some g ↦ some g
  | none ↦ if f.number == tag then some f else none
]

-- ".google.protobuf.Any"
abbrev pub any_name : List ℕ
any_name =
    b'.' ∷ b'g' ∷ b'o' ∷ b'o' ∷ b'g' ∷ b'l' ∷ b'e' ∷ b'.' ∷ b'p' ∷ b'r' ∷ b'o' ∷ b't' ∷ b'o' ∷ b'b'
    ∷ b'u' ∷ b'f' ∷ b'.' ∷ b'A' ∷ b'n' ∷ b'y' ∷ []

-- The types of messages, and what the traversal calls: protowire, whose negative lengths are `none`, the
-- descriptors of the generated code, the registry of types, and the decoder of `Any`, which gives the
-- type's address and the value.
pub record Wire (M : Type 0) : Type 0 where
  pub consume_tag : List ℕ → Option (ℕ × ℕ × ℕ)
  pub consume_field_value : ℕ → ℕ → List ℕ → Option ℕ
  pub consume_varint : List ℕ → Option ℕ
  pub has_descriptor : M → Bool
  pub descriptor_fields : M → Result (List Field)
  pub is_scalar : Field → Bool
  pub message_type : List ℕ → Option M
  pub any_message : M
  pub unmarshal_any : List ℕ → Result (List ℕ × List ℕ)

-- How a call ends; the Boolean is `hasUnknownNonCriticals`.
pub data Verdict : Type 0 where
  passed : Bool → Verdict
  rejected : Bool → Error → Verdict
  crashed : Panic → Verdict
  out_of_fuel : Verdict

infixl 5 ◌>>=◌
abbrev pub ◌>>=◌ : Verdict → (Bool → Verdict) → Verdict
passed flag >>= next = next flag
rejected flag e >>= next = rejected flag e
crashed p >>= next = crashed p
out_of_fuel >>= next = out_of_fuel

-- `hasUnknownNonCriticals || hasUnknownNonCriticalsChild`
abbrev pub join : Bool → Verdict → Verdict
join flag (passed child) = passed (flag || child)
join flag (rejected child e) = rejected (flag || child) e
join flag (crashed p) = crashed p
join flag out_of_fuel = out_of_fuel

-- The `switch` on the descriptor of a field.
unfoldable pub check_field : Bool → Option Field → Bool → ℕ → ℕ → Verdict
unfolding can_encode_type is_critical
check_field allow (some field) flag tag wire =
    if can_encode_type wire field.field_type
    then passed flag
    else rejected flag (mismatched_wire_type tag wire)
check_field allow none flag tag wire =
    if is_critical tag
    then rejected flag (unknown_field tag wire)
    else if allow
    then passed true
    else rejected true (unknown_field tag wire)

-- A field without the name of a type.
unfoldable pub check_untyped : FieldType → Verdict
check_untyped string = passed false
check_untyped bytes = passed false
check_untyped _ = rejected false no_type_name

module _ {M : Type 0} (wire : Wire M) where
  -- `nested` is the recursive call; the name of a type loses its first byte.
  unfoldable pub check_message : (M → List ℕ → Verdict) → Option M → List ℕ → Verdict
  check_message nested none value = rejected false unregistered_type
  check_message nested (some msg) value = nested msg value

  unfoldable pub check_named : (M → List ℕ → Verdict) → List ℕ → List ℕ → Verdict
  unfolding check_message
  check_named nested [] value = crashed slice_out_of_range
  check_named nested (c ∷ name) value = check_message nested (wire.message_type name) value

  unfoldable pub check_any : (M → List ℕ → Verdict) → Result (List ℕ × List ℕ) → Verdict
  unfolding check_named
  check_any nested (ok (type_url, value)) = check_named nested type_url value
  check_any nested (err e) = rejected false e
  check_any nested (panic p) = crashed p

  -- The message in a field, behind its length; that of an `Any` is first checked as such.
  unfoldable pub check_typed : (M → List ℕ → Verdict) → List ℕ → Option ℕ → List ℕ → Verdict
  unfolding check_any check_named
  check_typed nested name none field_bytes = crashed slice_out_of_range
  check_typed nested name (some o) field_bytes =
      if denom_eq name any_name
      then (nested wire.any_message (drop o field_bytes) >>= λ child.
          join child (check_any nested (wire.unmarshal_any (drop o field_bytes))))
      else check_named nested name (drop o field_bytes)

  unfoldable pub check_value : (M → List ℕ → Verdict) → Option Field → List ℕ → Verdict
  unfolding check_typed check_untyped
  check_value nested none field_bytes = passed false
  check_value nested (some field) field_bytes =
      if wire.is_scalar field
      then passed false
      else if length field.type_name == 0
      then check_untyped field.field_type
      else check_typed nested field.type_name (wire.consume_varint field_bytes) field_bytes

  -- One round, behind the tag, and behind the length of the value; `next` is the rest of the loop.
  unfoldable pub value_round :
      (M → List ℕ → Verdict)
      → (Bool → List ℕ → Verdict)
      → Option Field
      → Bool
      → Option ℕ
      → List ℕ
      → Verdict
  unfolding check_value
  value_round nested next field flag none bz = crashed slice_out_of_range
  value_round nested next field flag (some n) bz =
      join flag (check_value nested field (take n bz)) >>= λ flag'. next flag' (drop n bz)

  unfoldable pub tag_round :
      (M → List ℕ → Verdict)
      → (Bool → List ℕ → Verdict)
      → Bool
      → List Field
      → Bool
      → Option (ℕ × ℕ × ℕ)
      → List ℕ
      → Verdict
  unfolding value_round check_field field_of
  tag_round nested next allow fields flag none bz = rejected flag invalid_length
  tag_round nested next allow fields flag (some (tag, wire_type, m)) bz =
      check_field allow (field_of fields tag) flag tag wire_type >>= λ flag'.
      value_round nested next (field_of fields tag) flag'
        (wire.consume_field_value tag wire_type (drop m bz)) (drop m bz)

  -- The loop; each round drops one byte at least, so the length of the bytes is enough.
  unfoldable pub reject_loop :
      (M → List ℕ → Verdict) → Bool → List Field → ℕ → Bool → List ℕ → Verdict
  unfolding tag_round
  reject_loop nested allow fields fuel flag [] = passed flag
  reject_loop nested allow fields zero flag (b ∷ bz) = out_of_fuel
  reject_loop nested allow fields (suc fuel) flag (b ∷ bz) =
      tag_round nested (λ flag' rest. reject_loop nested allow fields fuel flag' rest) allow fields
        flag (wire.consume_tag (b ∷ bz)) (b ∷ bz)

  unfoldable pub check_fields :
      (M → List ℕ → Verdict) → Bool → Result (List Field) → List ℕ → Verdict
  unfolding reject_loop
  check_fields nested allow (ok fields) bz = reject_loop nested allow fields (length bz) false bz
  check_fields nested allow (err e) bz = rejected false e
  check_fields nested allow (panic p) bz = crashed p

  -- A nested message is shorter, so fuel above the length of the bytes is enough.
  unfoldable pub reject_on_fuel : ℕ → Bool → M → List ℕ → Verdict
  unfolding check_fields
  reject_on_fuel zero allow msg bz = out_of_fuel
  reject_on_fuel (suc fuel) allow msg bz =
      let rest =
        check_fields (λ m b. reject_on_fuel fuel allow m b) allow (wire.descriptor_fields msg) bz in
      if length bz == 0
      then passed false
      else if not (wire.has_descriptor msg)
      then rejected false no_descriptor
      else rest

  -- `RejectUnknownFields` and `RejectUnknownFieldsStrict`
  unfoldable pub reject_unknown_fields : List ℕ → M → Bool → Verdict
  unfolding reject_on_fuel
  reject_unknown_fields bz msg allow = reject_on_fuel (suc (length bz)) allow msg bz

  unfoldable pub reject_unknown_fields_strict : List ℕ → M → Verdict
  unfolding reject_unknown_fields
  reject_unknown_fields_strict bz msg = reject_unknown_fields bz msg false
