-- ===== src/BitArray/View.antt =====
-- An array of crypto/types/compact_bit_array.go as a size and a function from the indices to bits.
use plugchain_sdk_go.Prelude.{
  ℕ, zero, suc, ◌+◌, ◌-◌, ◌*◌, ◌/◌, ◌%◌, ◌≤◌, ◌<◌, ◌≡◌, refl, ap, ◌⊎◌, Bool, true, false, ltb, leb,
  ◌==◌, ==_iff, if◌then◌else◌, arith, List, [], ◌∷◌, length, get_elem?, set, replicate,
  length-replicate, All, Option, none, some, ok, Bool-cases, inl, inr, ltb→lt, not-ltb→le,
}
use plugchain_sdk_go.Prelude.Integer.{pos, ◌-ℤ◌, leb_ℤ}
use plugchain_sdk_go.BitArray.{
  CompactBitArray, new_compact_bit_array, count, get_index, set_index, test_bit, write_bit,
}
use plugchain_sdk_go.BitArray.Bits.{write_bit-IsByte, test_bit-write_bit}

abbrev pub IsByte : ℕ → Type 0
IsByte e = e < 256

-- The elements are bytes, fewer than eight bits are extra, and there is a byte that holds those.
pub record IsValid (b : CompactBitArray) : Type 0 where
  pub few : b.extra_bits_stored < 8
  pub held : b.extra_bits_stored ≤ length b.elems * 8
  pub bytes : All IsByte b.elems

abbrev pub size : CompactBitArray → ℕ
size b =
    if b.extra_bits_stored == 0
    then length b.elems * 8
    else length b.elems * 8 + b.extra_bits_stored - 8

abbrev elem_bit : Option ℕ → ℕ → Bool
elem_bit none i = false
elem_bit (some e) i = test_bit e (7 - i % 8)

-- The bit at an index, which is clear behind the last.
abbrev pub bit : CompactBitArray → ℕ → Bool
bit b i = if ltb i (size b) then elem_bit (get_elem? b.elems (i / 8)) i else false

get_elem?-lt :
    (xs : List ℕ) (i : ℕ)
    → i < length xs
    → All IsByte xs
    → (e : ℕ) × (get_elem? xs i ≡ some e) × IsByte e
get_elem?-lt [] i h a = absurd (omega arith)
get_elem?-lt (x ∷ xs) zero h (p, a) = (x, refl, p)
get_elem?-lt (x ∷ xs) (suc i) h (p, a) = get_elem?-lt xs i (omega arith) a

length-set : (xs : List ℕ) (i v : ℕ) → length (set xs i v) ≡ length xs
length-set [] i v = refl
length-set (x ∷ xs) zero v = refl
length-set (x ∷ xs) (suc i) v = ap suc (length-set xs i v)

All-set : (xs : List ℕ) (i v : ℕ) → IsByte v → All IsByte xs → All IsByte (set xs i v)
All-set [] i v p a = a
All-set (x ∷ xs) zero v p (q, a) = (p, a)
All-set (x ∷ xs) (suc i) v p (q, a) = (q, All-set xs i v p a)

get_elem?-set :
    (xs : List ℕ) (i v j : ℕ)
    → i < length xs
    → get_elem? (set xs i v) j ≡ (if j == i then some v else get_elem? xs j)
get_elem?-set [] i v j h = absurd (omega arith)
get_elem?-set (x ∷ xs) zero v zero h = refl
get_elem?-set (x ∷ xs) zero v (suc j) h = ground arith
get_elem?-set (x ∷ xs) (suc i) v zero h = ground arith
get_elem?-set (x ∷ xs) (suc i) v (suc j) h = ground (arith, get_elem?-set xs i v j)

module _ (b : CompactBitArray) (valid : IsValid b) where
  pub count-size : count b ≡ pos (size b)
  unfolding count ◌-ℤ◌
  count-size = ground (arith, valid.held, valid.few)

  module _ (i : ℕ) where
    below : i < size b → i / 8 < length b.elems
    below h = ground (arith, valid.held, valid.few)

    test_below : leb_ℤ (count b) (pos i) ≡ leb (size b) i
    test_below = rw count-size (ground arith)

    -- `GetIndex` reads the bit.
    pub get_index-bit : get_index b i ≡ ok (bit b i)
    unfolding get_index
    get_index-bit = elim (Bool-cases (ltb i (size b))) [
      | inl t ↦
          let h = ltb→lt i (size b) t in
          let (e, got, _) = get_elem?-lt b.elems (i / 8) (below h) valid.bytes in
          let inside : leb (size b) i ≡ false = ground arith in rw (test_below, inside, t, got)
      | inr t ↦
          let h = not-ltb→le i (size b) t in
          let outside : leb (size b) i ≡ true = ground arith in rw (test_below, outside, t)
    ]

    module _ (v : Bool) (h : i < size b) (e : ℕ) (got : get_elem? b.elems (i / 8) ≡ some e) where
      abbrev changed : CompactBitArray
      changed = record {
        extra_bits_stored = b.extra_bits_stored;
        elems = set b.elems (i / 8) (write_bit e (7 - i % 8) v);
      }

      size-changed : size changed ≡ size b
      size-changed = rw (length-set b.elems (i / 8) (write_bit e (7 - i % 8) v))

      set_index-changed : set_index b i v ≡ ok (changed, true)
      unfolding set_index
      set_index-changed =
          let inside : leb (size b) i ≡ false = ground arith in rw (test_below, inside, got)

      module _ (he : IsByte e) where
        changed-IsValid : IsValid changed
        changed-IsValid = record {
          few = valid.few;
          held = rw (length-set b.elems (i / 8) (write_bit e (7 - i % 8) v)) valid.held;
          bytes =
              All-set b.elems (i / 8) _
                (write_bit-IsByte e (7 - i % 8) 0 v he (omega arith) (omega arith)) valid.bytes;
        }

        bit-changed : (j : ℕ) → bit changed j ≡ (if j == i then v else bit b j)
        bit-changed j =
            let one =
              test_bit-write_bit e (7 - i % 8) (7 - j % 8) v he (omega arith) (omega arith) in
            let read =
              get_elem?-set b.elems (i / 8) (write_bit e (7 - i % 8) v) (j / 8) (below h) in
            elim (Bool-cases (j / 8 == i / 8)) [
              | inl s ↦
                  let same : j / 8 ≡ i / 8 = (==_iff _ _).0 s in
                  let got' : get_elem? b.elems (j / 8) ≡ some e = rw same got in
                  rw (size-changed, read, s, got', one) (ground arith)
              | inr s ↦ rw (size-changed, read, s) (ground arith)
            ]

module _ (b : CompactBitArray) (valid : IsValid b) (i : ℕ) (v : Bool) (h : i < size b) where
  -- SetIndex at an index in range of a valid array succeeds; it keeps the array valid and its
  -- size, and changes the bit at that index and no other.
  pub set_index-bit :
      (b' : CompactBitArray) × (set_index b i v ≡ ok (b', true))
      × IsValid b'
      × (size b' ≡ size b)
      × ((j : ℕ) → bit b' j ≡ (if j == i then v else bit b j))
  set_index-bit =
      let (e, got, he) = get_elem?-lt b.elems (i / 8) (below b valid i h) valid.bytes in
      (
        changed b valid i v h e got,
        set_index-changed b valid i v h e got,
        changed-IsValid b valid i v h e got he,
        size-changed b valid i v h e got,
        bit-changed b valid i v h e got he,
      )

-- `make([]byte, n)`
abbrev zeros : ℕ → List ℕ
zeros n = replicate n 0

All-zeros : (n : ℕ) → All IsByte (zeros n)
All-zeros zero = tt
All-zeros (suc n) = (omega arith, All-zeros n)

get_elem?-zeros : (n i : ℕ) → (get_elem? (zeros n) i ≡ none) ⊎ (get_elem? (zeros n) i ≡ some 0)
get_elem?-zeros zero i = inl refl
get_elem?-zeros (suc n) zero = inr refl
get_elem?-zeros (suc n) (suc i) = get_elem?-zeros n i

-- A new array of a positive number of bits is valid, has that many, and all of them are clear.
pub new_compact_bit_array_lem :
    (n : ℕ)
    → 0 < n
    → (b : CompactBitArray) × (new_compact_bit_array (pos n) ≡ some b)
      × IsValid b
      × (size b ≡ n)
      × ((i : ℕ) → bit b i ≡ false)
unfolding new_compact_bit_array
new_compact_bit_array_lem zero h = absurd (omega arith)
new_compact_bit_array_lem (suc n) h =
    let len : length (zeros ((suc n + 7) / 8)) ≡ (suc n + 7) / 8 =
      length-replicate ((suc n + 7) / 8) 0 in
    let b : CompactBitArray = record {
      extra_bits_stored = suc n % 8;
      elems = replicate ((suc n + 7) / 8) 0;
    } in
    (
      b,
      refl,
      record {
        few = omega arith;
        held = rw len (omega arith);
        bytes = All-zeros ((suc n + 7) / 8);
      },
      rw len (ground arith),
      λ i. elim (get_elem?-zeros ((suc n + 7) / 8) (i / 8)) [
        | inl e ↦ rw e (ground arith)
        | inr e ↦ rw e (ground arith)
      ],
    )
