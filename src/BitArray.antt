-- ===== src/BitArray.antt =====
-- crypto/types/compact_bit_array.go and crypto/types/multisig/multisignature.go: an array of bits in
-- bytes, most significant bit first, and the signatures that stand beside its set bits.
pub mod Bits
pub mod View
pub mod Signatures
pub mod Json
pub mod RoundTrip
pub mod Compact
pub mod Verify
use plugchain_sdk_go.Prelude.{
  ℕ, zero, suc, ◌+◌, ◌-◌, ◌*◌, ◌/◌, ◌%◌, ◌^◌, Bool, true, false, if◌then◌else◌, ◌==◌, List, [], ◌∷◌,
  ◌++◌, length, get_elem?, set, take, drop, replicate, Option, none, some, Result, ok, err, panic,
  ◌>>=◌, ◌>>◌, panic_if, not, ltb, index_out_of_range, unknown_key,
}
use plugchain_sdk_go.Prelude.Integer.{ℤ, pos, negsuc, ◌-ℤ◌, leb_ℤ}

pub record CompactBitArray : Type 0 where
  pub extra_bits_stored : ℕ
  pub elems : List ℕ

-- The pointer that is nil is `none`.
unfoldable pub new_compact_bit_array : ℤ → Option CompactBitArray
new_compact_bit_array (pos zero) = none
new_compact_bit_array (negsuc n) = none
new_compact_bit_array (pos (suc n)) =
    some (record { extra_bits_stored = suc n % 8; elems = replicate ((suc n + 7) / 8) 0 })

-- `Count`, which is negative for an array without bytes that claims extra bits.
unfoldable pub count : CompactBitArray → ℤ
count b =
    if b.extra_bits_stored == 0
    then pos (length b.elems * 8)
    else pos (length b.elems * 8 + b.extra_bits_stored) -ℤ pos 8

-- `elem & (1 << k) > 0`
abbrev pub test_bit : ℕ → ℕ → Bool
test_bit elem k = elem / 2 ^ k % 2 == 1

-- `elem | (1 << k)` and `elem & ^(1 << k)`
abbrev pub write_bit : ℕ → ℕ → Bool → ℕ
write_bit elem k true = if test_bit elem k then elem else elem + 2 ^ k
write_bit elem k false = if test_bit elem k then elem - 2 ^ k else elem

-- `GetIndex` at an index that is not negative.
unfoldable pub get_index : CompactBitArray → ℕ → Result Bool
get_index b i = if leb_ℤ (count b) (pos i) then ok false else elim (get_elem? b.elems (i / 8)) [
  | none ↦ panic index_out_of_range
  | some elem ↦ ok (test_bit elem (7 - i % 8))
]

-- `SetIndex`: the array after the call, and what the call returns.
unfoldable pub set_index : CompactBitArray → ℕ → Bool → Result (CompactBitArray × Bool)
set_index b i v =
    if leb_ℤ (count b) (pos i) then ok (b, false) else elim (get_elem? b.elems (i / 8)) [
      | none ↦ panic index_out_of_range
      | some elem ↦ ok (
        record {
          extra_bits_stored = b.extra_bits_stored;
          elems = set b.elems (i / 8) (write_bit elem (7 - i % 8) v);
        },
        true,
      )
    ]

-- The loop of `NumTrueBitsBefore`.
unfoldable pub num_true_bits_before : CompactBitArray → ℕ → Result ℕ
num_true_bits_before b zero = ok 0
num_true_bits_before b (suc i) = do
  before ← num_true_bits_before b i
  bit ← get_index b i
  ok (if bit then suc before else before)

module _ {S : Type 0} where
  -- `copy(sigs[i+1:], sigs[i:])` behind an `append`, and the write at `i`: the element goes between.
  abbrev pub insert_at : List S → ℕ → S → List S
  insert_at xs i s = take i xs ++ s ∷ drop i xs

  -- `AddSignature`, for an index in range.
  unfoldable pub add_signature :
      CompactBitArray → List S → S → ℕ → Result (CompactBitArray × List S)
  add_signature b signatures sig index = num_true_bits_before b index >>= λ new_sig_index.
      get_index b index >>= λ present.
      if present
      then (panic_if (not (ltb new_sig_index (length signatures))) index_out_of_range
          >> ok (b, set signatures new_sig_index sig))
      else (set_index b index true >>= λ changed.
          if new_sig_index == length signatures
          then ok (changed.0, signatures ++ sig ∷ [])
          else (panic_if (ltb (length signatures) new_sig_index) index_out_of_range
              >> ok (changed.0, insert_at signatures new_sig_index sig)))

-- `getIndex`, with the test of `PubKey.Equals`; `none` stands for -1.
abbrev pub index_of : {K : Type 0} → (K → K → Bool) → K → List K → Option ℕ
index_of equals pk [] = none
index_of equals pk (k ∷ keys) =
    let rest = index_of equals pk keys in
    if equals pk k then some 0 else elim rest [ none ↦ none | some i ↦ some (suc i) ]

-- `AddSignatureFromPubKey` for arguments that are not nil.
unfoldable pub add_signature_from_pub_key :
    {S : Type 0} {K : Type 0}
    → (K → K → Bool)
    → CompactBitArray
    → List S
    → S
    → K
    → List K
    → Result (CompactBitArray × List S)
unfolding add_signature
add_signature_from_pub_key equals b signatures sig pubkey keys =
    elim (index_of equals pubkey keys) [
      | none ↦ err unknown_key
      | some index ↦ add_signature b signatures sig index
    ]
