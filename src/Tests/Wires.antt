-- ===== src/Tests/Wires.antt =====
-- A run of codec/unknownproto/unknown_fields.go: a tag is a byte for the number and one for the wire type,
-- and a value is a byte for its length and as many bytes.
use plugchain_sdk_go.Prelude.{
  ℕ, suc, ◌≡◌, ◌≢◌, ◌≤◌, ◌<◌, refl, arith, true, false, leb, if◌then◌else◌, List, [], ◌∷◌, length,
  Option, none, some, ok, slice_out_of_range, unknown_field,
}
use plugchain_sdk_go.UnknownFields.{
  Field, message, string, Wire, passed, rejected, crashed, out_of_fuel, reject_unknown_fields,
  reject_unknown_fields_strict, reject_on_fuel, reject_loop, tag_round, value_round, check_fields,
  check_field, check_value, check_typed, check_named, check_message, field_of, can_encode_type,
  is_critical, check_untyped,
}
use plugchain_sdk_go.UnknownFields.Fuel.{IsLawful, reject_unknown_fields_ends}
use plugchain_sdk_go.UnknownFields.Inside.{IsKnown, first, plain, itself, deeper, Inside, Entry}
use plugchain_sdk_go.UnknownFields.Known.{reject_unknown_fields-IsKnown}
use plugchain_sdk_go.Denom.{compare_denom}

-- Field 1 holds a message of the same type, field 2 a text, and field 3 an `Any`.
abbrev node : Field
node = record { number = 1; field_type = message; type_name = b'.' ∷ b'n' ∷ [] }

abbrev label : Field
label = record { number = 2; field_type = string; type_name = [] }

abbrev read_tag : List ℕ → Option (ℕ × ℕ × ℕ)
read_tag (t ∷ w ∷ bz) = some (t, w, 2)
read_tag (t ∷ []) = none
read_tag [] = none

abbrev read_length : List ℕ → Option ℕ
read_length (n ∷ bz) = if leb n (length bz) then some (suc n) else none
read_length [] = none

abbrev read_varint : List ℕ → Option ℕ
read_varint (n ∷ bz) = some 1
read_varint [] = none

abbrev pub node_wire : Wire (Unit {0})
node_wire = record {
  consume_tag = read_tag;
  consume_field_value = λ t w bz. read_length bz;
  consume_varint = read_varint;
  has_descriptor = λ m. true;
  descriptor_fields = λ m. ok (node ∷ label ∷ []);
  is_scalar = λ f. false;
  message_type = λ name. some tt;
  any_message = tt;
  unmarshal_any = λ bz. ok (bz, []);
}

two_bytes : (bz : List ℕ) (t w m : ℕ) → read_tag bz ≡ some (t, w, m) → (0 < m) × (m ≤ length bz)
two_bytes (a ∷ b ∷ bz) t w m h = let two : 2 ≡ m = cc in (omega arith, omega arith)
two_bytes (a ∷ []) t w m h = cc
two_bytes [] t w m h = cc

node_wire-IsLawful : IsLawful node_wire
node_wire-IsLawful = record {
  tag_length = two_bytes;
  any_length = λ bz url value h. let none_left : [] ≡ value = cc in rw (← none_left) (omega arith);
}

-- A message that holds one with an empty text.
abbrev nested_label : List ℕ
nested_label = 1 ∷ 2 ∷ 3 ∷ 2 ∷ 2 ∷ 0 ∷ []

nested_label-passed : reject_unknown_fields node_wire nested_label tt true ≡ passed false
unfolding reject_unknown_fields reject_on_fuel reject_loop tag_round value_round check_fields
    check_field check_value check_typed check_named check_message field_of can_encode_type
    compare_denom check_untyped
nested_label-passed = refl

label-Inside : Inside node_wire tt (2 ∷ 2 ∷ 0 ∷ []) tt nested_label
unfolding field_of compare_denom
label-Inside =
    deeper (node ∷ label ∷ []) node 1 2 (3 ∷ 2 ∷ 2 ∷ 0 ∷ []) refl (first 2 4 refl refl refl) refl
      refl (plain 1 b'.' (b'n' ∷ []) refl refl refl refl refl) itself

label-entry : Entry node_wire (2 ∷ 2 ∷ 0 ∷ []) 2 2 (0 ∷ [])
label-entry = first 2 1 refl refl refl

reject_unknown_fields-IsKnown_example : IsKnown true (node ∷ label ∷ []) 2 2 false
reject_unknown_fields-IsKnown_example =
    reject_unknown_fields-IsKnown node_wire node_wire-IsLawful nested_label tt true false tt
      (2 ∷ 2 ∷ 0 ∷ []) (node ∷ label ∷ []) 2 2 (0 ∷ []) nested_label-passed label-Inside refl
      label-entry

reject_unknown_fields_ends_example :
    reject_unknown_fields node_wire nested_label tt false ≢ out_of_fuel
reject_unknown_fields_ends_example =
    reject_unknown_fields_ends node_wire node_wire-IsLawful nested_label tt false

-- A nested field that its type does not know, critical and not.
unknown_critical :
    reject_unknown_fields node_wire (1 ∷ 2 ∷ 3 ∷ 9 ∷ 2 ∷ 0 ∷ []) tt true
    ≡ rejected false (unknown_field 9 2)
unfolding reject_unknown_fields reject_on_fuel reject_loop tag_round value_round check_fields
    check_field check_value check_typed check_named check_message field_of can_encode_type
    compare_denom is_critical
unknown_critical = refl

-- A value that is cut short makes the call panic.
cut_short : reject_unknown_fields_strict node_wire (2 ∷ 2 ∷ 5 ∷ []) tt ≡ crashed slice_out_of_range
unfolding reject_unknown_fields_strict reject_unknown_fields reject_on_fuel reject_loop tag_round
    value_round check_fields check_field field_of can_encode_type
cut_short = refl
