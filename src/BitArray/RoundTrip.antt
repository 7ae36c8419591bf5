-- ===== src/BitArray/RoundTrip.antt =====
-- `MarshalJSON` and `UnmarshalJSON` of crypto/types/compact_bit_array.go, one after the other.
use plugchain_sdk_go.Prelude.{
  ℕ, zero, suc, ◌+◌, ◌≤◌, ◌<◌, ◌≡◌, refl, ap, sym, ◌∙◌, Bool, true, false, ◌&&◌, ltb, leb, ◌==◌,
  ==_iff, if◌then◌else◌, arith, List, [], ◌∷◌, ◌++◌, length, some, ok, Bool-cases, inl, inr, ◌⊎◌,
}
use plugchain_sdk_go.BitArray.{CompactBitArray}
use plugchain_sdk_go.BitArray.View.{
  IsValid, size, bit, count-size, get_index-bit, set_index-bit, new_compact_bit_array_lem,
}
use plugchain_sdk_go.BitArray.Json.{
  marshal_loop, marshal_json, match_bits, unmarshal_loop, unmarshal_json,
}

-- The characters for the bits of `n` indices from `i` on.
abbrev text : (ℕ → Bool) → ℕ → ℕ → List ℕ
text f zero i = []
text f (suc n) i = (if f i then b'x' else b'_') ∷ text f n (i + 1)

marshal_loop-text :
    (b : CompactBitArray) → IsValid b → (n i : ℕ) → marshal_loop b n i ≡ ok (text (bit b) n i)
unfolding marshal_loop
marshal_loop-text b valid zero i = refl
marshal_loop-text b valid (suc n) i =
    rw (get_index-bit b valid i, marshal_loop-text b valid n (i + 1))

length-text : (f : ℕ → Bool) (n i : ℕ) → length (text f n i) ≡ n
length-text f zero i = refl
length-text f (suc n) i = ap suc (length-text f n (i + 1))

match_bits-text :
    (f : ℕ → Bool) (n i : ℕ) → match_bits (text f n i ++ b'"' ∷ []) ≡ some (text f n i)
match_bits-text f zero i = refl
match_bits-text f (suc zero) i = elim (Bool-cases (f i)) [ inl t ↦ rw t | inr t ↦ rw t ]
match_bits-text f (suc (suc n)) i =
    let rest = match_bits-text f (suc n) (i + 1) in
    elim (Bool-cases (f i)) [ inl t ↦ rw (rest, t) | inr t ↦ rw (rest, t) ]

-- The bits of one array, with those of `n` indices from `i` on that `f` sets.
abbrev with_bits : (ℕ → Bool) → ℕ → ℕ → (ℕ → Bool) → ℕ → Bool
with_bits f n i g j = if leb i j && ltb j (i + n) && f j then true else g j

module _ (f g : ℕ → Bool) (n i j : ℕ) where
  with_bits-zero : with_bits f zero i g j ≡ g j
  with_bits-zero = ground arith

  with_bits-set :
      (g' : ℕ → Bool)
      → f i ≡ true
      → g' j ≡ (if j == i then true else g j)
      → with_bits f n (i + 1) g' j ≡ with_bits f (suc n) i g j
  with_bits-set g' t e = elim (Bool-cases (j == i)) [
    | inl q ↦ let here : f j ≡ true = rw ((==_iff j i).0 q) t in ground arith
    | inr q ↦ ground arith
  ]

  with_bits-clear : f i ≡ false → with_bits f n (i + 1) g j ≡ with_bits f (suc n) i g j
  with_bits-clear t = elim (Bool-cases (j == i)) [
    | inl q ↦ let here : f j ≡ false = rw ((==_iff j i).0 q) t in ground arith
    | inr q ↦ ground arith
  ]

with_bits-all :
    (f g : ℕ → Bool) (n j : ℕ)
    → ((ltb j n ≡ true) ⊎ (f j ≡ false))
    → g j ≡ false
    → with_bits f n 0 g j ≡ f j
with_bits-all f g n j h e = elim (Bool-cases (f j)) [
  | inl t ↦ elim h [ inl inside ↦ rw (t, e) (ground arith) | inr off ↦ cc (t, off) ]
  | inr t ↦ rw (t, e) (ground arith)
]

bit-beyond : (b : CompactBitArray) (j : ℕ) → (ltb j (size b) ≡ true) ⊎ (bit b j ≡ false)
bit-beyond b j = elim (Bool-cases (ltb j (size b))) [ inl t ↦ inl t | inr t ↦ inr (rw t refl) ]

unmarshal_loop-text :
    (f : ℕ → Bool) (n i : ℕ) (b : CompactBitArray)
    → IsValid b
    → i + n ≤ size b
    → (b' : CompactBitArray) × (unmarshal_loop b (text f n i) i ≡ ok b')
      × IsValid b'
      × (size b' ≡ size b)
      × ((j : ℕ) → bit b' j ≡ with_bits f n i (bit b) j)
unfolding unmarshal_loop
unmarshal_loop-text f zero i b valid h =
    (b, refl, valid, refl, λ j. sym (with_bits-zero f (bit b) 0 i j))
unmarshal_loop-text f (suc n) i b valid h = elim (Bool-cases (f i)) [
  | inl t ↦
      let (c, e, valid', same, bits) = set_index-bit b valid i true (omega arith) in
      let (b', e', valid'', same', bits') =
        unmarshal_loop-text f n (i + 1) c valid' (omega arith) in
      (
        b',
        rw (t, e) e',
        valid'',
        same' ∙ same,
        λ j. bits' j ∙ with_bits-set f (bit b) n i j (bit c) t (bits j),
      )
  | inr t ↦
      let (b', e', valid'', same', bits') = unmarshal_loop-text f n (i + 1) b valid (omega arith) in
      (b', rw t e', valid'', same', λ j. bits' j ∙ with_bits-clear f (bit b) n i j t)
]

-- The JSON form of a valid array that is not empty is read back as a valid array of the same
-- size and the same bits.
pub unmarshal_json-marshal_json :
    (b : CompactBitArray)
    → IsValid b
    → 0 < size b
    → (str : List ℕ) × (b' : CompactBitArray) × (marshal_json (some b) ≡ ok str)
      × (unmarshal_json str ≡ ok b')
      × IsValid b'
      × (size b' ≡ size b)
      × ((j : ℕ) → bit b' j ≡ bit b j)
unfolding marshal_json unmarshal_json
unmarshal_json-marshal_json b valid h =
    let bits = text (bit b) (size b) 0 in
    let (c, made, valid', same, cleared) = new_compact_bit_array_lem (size b) h in
    let (b', e, valid'', same', bits') =
      unmarshal_loop-text (bit b) (size b) 0 c valid' (omega arith) in
    (
      b'"' ∷ (bits ++ b'"' ∷ []),
      b',
      rw (count-size b valid, marshal_loop-text b valid (size b) 0),
      rw (match_bits-text (bit b) (size b) 0, length-text (bit b) (size b) 0, made) e,
      valid'',
      same' ∙ same,
      λ j. bits' j ∙ with_bits-all (bit b) (bit c) (size b) j (bit-beyond b j) (cleared j),
    )
