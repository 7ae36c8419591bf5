-- ===== src/Tests/Bits.antt =====
-- Runs of crypto/types/compact_bit_array.go.
use plugchain_sdk_go.Prelude.{◌++◌, replicate, slice_out_of_range}
use plugchain_sdk_go.Denom.{compare_denom}
use plugchain_sdk_go.BitArray.Compact.{
  compact_marshal, compact_unmarshal, marshal_count, append_uvarint, put_loop, uvarint,
  uvarint_loop, unmarshal_elems, size_matches, compact_unmarshal-compact_marshal,
}
use plugchain_sdk_go.Prelude.{
  ℕ, ◌≡◌, refl, arith, true, ◌==◌, if◌then◌else◌, List, [], ◌∷◌, some, ok, panic, ◌>>=◌,
  nil_pointer,
}
use plugchain_sdk_go.Prelude.Integer.{◌-ℤ◌}
use plugchain_sdk_go.BitArray.{
  CompactBitArray, new_compact_bit_array, count, get_index, set_index, add_signature,
}
use plugchain_sdk_go.BitArray.View.{IsValid, size, bit}
use plugchain_sdk_go.BitArray.Signatures.{signature_at, IsMultisig, add_signature_lem}
use plugchain_sdk_go.BitArray.RoundTrip.{unmarshal_json-marshal_json}
use plugchain_sdk_go.BitArray.Json.{marshal_json, marshal_loop, unmarshal_json, unmarshal_loop}

-- Ten bits, of which the first and the last are set.
abbrev ten_bits : List ℕ
ten_bits = b'"' ∷ b'x' ∷ b'_' ∷ b'_' ∷ b'_' ∷ b'_' ∷ b'_' ∷ b'_' ∷ b'_' ∷ b'_' ∷ b'x' ∷ b'"' ∷ []

marshal_ten_bits : (unmarshal_json ten_bits >>= λ b. marshal_json (some b)) ≡ ok ten_bits
unfolding unmarshal_json unmarshal_loop new_compact_bit_array set_index count get_index marshal_json
    marshal_loop ◌-ℤ◌
marshal_ten_bits = refl

-- The string of no bits is matched, and makes the call panic.
unmarshal_no_bits : unmarshal_json (b'"' ∷ b'"' ∷ []) ≡ panic nil_pointer
unfolding unmarshal_json new_compact_bit_array
unmarshal_no_bits = refl

-- Ten bits of which the second is set, with its signature.
abbrev one_bit : CompactBitArray
one_bit = record { extra_bits_stored = 2; elems = 64 ∷ 0 ∷ [] }

abbrev one_signature : List ℕ
one_signature = 7 ∷ []

one_bit-IsMultisig : IsMultisig one_bit one_signature
one_bit-IsMultisig = record {
  valid = record {
    few = omega arith;
    held = omega arith;
    bytes = (omega arith, (omega arith, tt));
  };
  one_each = refl;
}

add_signature_lem_example :
    (b' : CompactBitArray) × (sigs' : List ℕ) × (add_signature one_bit one_signature 8 9
      ≡ ok (b', sigs'))
    × IsMultisig b' sigs'
    × ((j : ℕ) → bit b' j ≡ (if j == 9 then true else bit one_bit j))
    × ((j : ℕ)
        → signature_at b' sigs' j
          ≡ (if j == 9 then some 8 else signature_at one_bit one_signature j))
add_signature_lem_example =
    add_signature_lem one_bit one_signature 8 9 one_bit-IsMultisig (omega arith)

unmarshal_json-marshal_json_example :
    (str : List ℕ) × (b' : CompactBitArray) × (marshal_json (some one_bit) ≡ ok str)
    × (unmarshal_json str ≡ ok b')
    × IsValid b'
    × (size b' ≡ size one_bit)
    × ((j : ℕ) → bit b' j ≡ bit one_bit j)
unmarshal_json-marshal_json_example =
    unmarshal_json-marshal_json one_bit one_bit-IsMultisig.valid (omega arith)

-- The compact form, and two strings of bytes that are refused by a panic, and accepted without bytes.
compact_unmarshal-compact_marshal_example :
    compact_unmarshal (compact_marshal (some one_bit)) ≡ ok (some one_bit)
compact_unmarshal-compact_marshal_example =
    compact_unmarshal-compact_marshal one_bit one_bit-IsMultisig.valid (omega arith) (omega arith)

compact_one_bit : compact_marshal (some one_bit) ≡ 10 ∷ 64 ∷ 0 ∷ []
unfolding compact_marshal marshal_count append_uvarint put_loop count ◌-ℤ◌
compact_one_bit = refl

overlong_length : compact_unmarshal (replicate 10 255 ++ 1 ∷ []) ≡ panic slice_out_of_range
unfolding compact_unmarshal uvarint uvarint_loop compare_denom
overlong_length = refl

size_without_bytes :
    compact_unmarshal (replicate 9 255 ++ 1 ∷ [])
    ≡ ok (some (record { extra_bits_stored = 7; elems = [] }))
unfolding compact_unmarshal uvarint uvarint_loop compare_denom unmarshal_elems size_matches
size_without_bytes = refl
