-- ===== src/BitArray/Json.antt =====
-- `MarshalJSON` and `UnmarshalJSON` of crypto/types/compact_bit_array.go.
use plugchain_sdk_go.Prelude.{
  ℕ, zero, suc, ◌+◌, Bool, true, false, if◌then◌else◌, ◌==◌, List, [], ◌∷◌, ◌++◌, length, Option,
  none, some, Result, ok, err, panic, ◌>>=◌, invalid_size, nil_pointer,
}
use plugchain_sdk_go.Prelude.Integer.{ℤ, pos, negsuc}
use plugchain_sdk_go.BitArray.{CompactBitArray, new_compact_bit_array, count, get_index, set_index}

-- The loop over the indices from `i` on, of which `n` are left.
unfoldable pub marshal_loop : CompactBitArray → ℕ → ℕ → Result (List ℕ)
marshal_loop b zero i = ok []
marshal_loop b (suc n) i = do
  bit ← get_index b i
  rest ← marshal_loop b n (i + 1)
  ok ((if bit then b'x' else b'_') ∷ rest)

abbrev pub null : List ℕ
null = b'n' ∷ b'u' ∷ b'l' ∷ b'l' ∷ []

-- A loop up to a negative count has no round.
abbrev pub rounds : ℤ → ℕ
rounds (pos n) = n
rounds (negsuc n) = 0

unfoldable pub marshal_json : Option CompactBitArray → Result (List ℕ)
unfolding marshal_loop
marshal_json none = ok null
marshal_json (some b) = do
  bits ← marshal_loop b (rounds (count b)) 0
  ok (b'"' ∷ (bits ++ b'"' ∷ []))

-- The bits of a string that matches `\A"([_x]*)"\z`, behind its first quote.
abbrev pub match_bits : List ℕ → Option (List ℕ)
match_bits [] = none
match_bits (c ∷ []) = if c == b'"' then some [] else none
match_bits (c ∷ d ∷ cs) =
    let rest = match_bits (d ∷ cs) in
    elim rest [
      | none ↦ none
      | some bits ↦
          if c == b'x' then some (c ∷ bits) else if c == b'_' then some (c ∷ bits) else none
    ]

abbrev pub match_json : List ℕ → Option (List ℕ)
match_json [] = none
match_json (c ∷ cs) = if c == b'"' then match_bits cs else none

-- The loop that sets the bits from index `i` on.
unfoldable pub unmarshal_loop : CompactBitArray → List ℕ → ℕ → Result CompactBitArray
unmarshal_loop b [] i = ok b
unmarshal_loop b (c ∷ cs) i =
    (if c == b'x' then (set_index b i true >>= λ changed. ok changed.0) else ok b) >>= λ next.
    unmarshal_loop next cs (i + 1)

abbrev pub same : List ℕ → List ℕ → Bool
same [] [] = true
same (x ∷ xs) (y ∷ ys) = if x == y then same xs ys else false
same _ _ = false

-- What the receiver is set to. For no bits, `NewCompactBitArray` gives nil, which `*bA = *bA2` reads.
unfoldable pub unmarshal_json : List ℕ → Result CompactBitArray
unfolding unmarshal_loop
unmarshal_json b =
    if same b null then ok (record { extra_bits_stored = 0; elems = [] }) else elim (match_json b) [
      | none ↦ err invalid_size
      | some bits ↦ elim (new_compact_bit_array (pos (length bits))) [
        | none ↦ panic nil_pointer
        | some array ↦ unmarshal_loop array bits 0
      ]
    ]
