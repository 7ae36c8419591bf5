-- ===== src/BitArray/Signatures.antt =====
-- `AddSignature` of crypto/types/multisig/multisignature.go as an update of a map from the indices of
-- keys to signatures.
use native.Mathlib.Nat.{le_refl, le_trans}
use plugchain_sdk_go.Prelude.{
  ℕ, zero, suc, ◌-◌, ◌≤◌, ◌<◌, ◌≡◌, refl, ap, sym, ◌∙◌, Bool, true, false, ltb, leb, ◌==◌, ==_iff,
  if◌then◌else◌, arith, List, [], ◌∷◌, ◌++◌, length, get_elem?, set, Option, none, some, ok,
  Bool-cases, inl, inr, ltb→lt, lt→ltb, le→not-ltb, not-ltb→le,
}
use plugchain_sdk_go.BitArray.{
  CompactBitArray, set_index, num_true_bits_before, insert_at, add_signature,
}
use plugchain_sdk_go.BitArray.View.{IsValid, size, bit, get_index-bit, set_index-bit}

-- How many indices below `n` have their bit set.
abbrev pub rank : (ℕ → Bool) → ℕ → ℕ
rank f zero = 0
rank f (suc n) = if f n then suc (rank f n) else rank f n

pub num_true_bits_before-rank :
    (b : CompactBitArray) → IsValid b → (n : ℕ) → num_true_bits_before b n ≡ ok (rank (bit b) n)
unfolding num_true_bits_before
num_true_bits_before-rank b valid zero = refl
num_true_bits_before-rank b valid (suc n) =
    rw (num_true_bits_before-rank b valid n, get_index-bit b valid n)

module _ (f : ℕ → Bool) where
  rank_step : (n : ℕ) → (rank f n ≤ rank f (suc n)) × (rank f (suc n) ≤ suc (rank f n))
  rank_step n = ground arith

  rank_mono : (m n : ℕ) → m ≤ n → rank f m ≤ rank f n
  rank_mono zero n h = omega arith
  rank_mono (suc m) zero h = absurd (omega arith)
  rank_mono (suc m) (suc n) h = elim (Bool-cases (m == n)) [
    | inl s ↦ rw ((==_iff m n).0 s) (le_refl _)
    | inr s ↦ let up = rank_mono (suc m) n (ground arith) in le_trans up (rank_step n).0
  ]

  rank_lt : (j n : ℕ) → j < n → f j ≡ true → rank f j < rank f n
  rank_lt j n h t =
      let s : rank f (suc j) ≡ suc (rank f j) = rw t in omega (arith, rank_mono (suc j) n h)

module _ (f g : ℕ → Bool) (i : ℕ) (added : (j : ℕ) → g j ≡ (if j == i then true else f j)) where
  rank-added : (n : ℕ) → f i ≡ false → rank g n ≡ (if leb n i then rank f n else suc (rank f n))
  rank-added zero h = ground arith
  rank-added (suc n) h = elim (Bool-cases (n == i)) [
    | inl s ↦
        let e : n ≡ i = (==_iff n i).0 s in
        let clear : f n ≡ false = rw e h in ground (arith, rank-added n h, added n)
    | inr s ↦ ground (arith, rank-added n h, added n)
  ]

module _ {S : Type 0} where
  get_elem?-insert_at :
      (xs : List S) (i : ℕ) (s : S) (k : ℕ)
      → i ≤ length xs
      → get_elem? (insert_at xs i s) k
        ≡ (if ltb k i then get_elem? xs k else if k == i then some s else get_elem? xs (k - 1))
  get_elem?-insert_at xs zero s zero h = ground arith
  get_elem?-insert_at xs zero s (suc k) h = ground arith
  get_elem?-insert_at [] (suc i) s k h = absurd (omega arith)
  get_elem?-insert_at (x ∷ xs) (suc i) s zero h = ground arith
  get_elem?-insert_at (x ∷ xs) (suc i) s (suc zero) h =
      ground (arith, get_elem?-insert_at xs i s zero)
  get_elem?-insert_at (x ∷ xs) (suc i) s (suc (suc k)) h =
      let e : suc k - 1 ≡ k = omega arith in
      let e' : suc (suc k) - 1 ≡ suc k = omega arith in
      rw e' (ground (arith, rw e at (get_elem?-insert_at xs i s (suc k) (omega arith))))

  length-insert_at : (xs : List S) (i : ℕ) (s : S) → length (insert_at xs i s) ≡ suc (length xs)
  length-insert_at [] zero s = refl
  length-insert_at [] (suc i) s = refl
  length-insert_at (x ∷ xs) zero s = refl
  length-insert_at (x ∷ xs) (suc i) s = ap suc (length-insert_at xs i s)

  length-set : (xs : List S) (i : ℕ) (s : S) → length (set xs i s) ≡ length xs
  length-set [] i s = refl
  length-set (x ∷ xs) zero s = refl
  length-set (x ∷ xs) (suc i) s = ap suc (length-set xs i s)

  get_elem?-set :
      (xs : List S) (i : ℕ) (s : S) (k : ℕ)
      → i < length xs
      → get_elem? (set xs i s) k ≡ (if k == i then some s else get_elem? xs k)
  get_elem?-set [] i s k h = absurd (omega arith)
  get_elem?-set (x ∷ xs) zero s zero h = refl
  get_elem?-set (x ∷ xs) zero s (suc k) h = ground arith
  get_elem?-set (x ∷ xs) (suc i) s zero h = ground arith
  get_elem?-set (x ∷ xs) (suc i) s (suc k) h = ground (arith, get_elem?-set xs i s k)

-- The element that belongs to an index: the bits below it say which one it is.
abbrev pub element_at : {S : Type 0} → (ℕ → Bool) → List S → ℕ → Option S
element_at f xs j = if f j then get_elem? xs (rank f j) else none

module _ (f : ℕ → Bool) (i j : ℕ) (ti : f i ≡ true) (tj : f j ≡ true) where
  rank-injective : (j == i) ≡ false → (rank f j == rank f i) ≡ false
  rank-injective apart = elim (Bool-cases (ltb j i)) [
    | inl o ↦ let below = rank_lt f j i (ltb→lt j i o) tj in ground arith
    | inr o ↦ let above = rank_lt f i j (ground arith) ti in ground arith
  ]

module _ {S : Type 0} (f : ℕ → Bool) (xs : List S) (i : ℕ) (s : S) where
  element_at-set :
      f i ≡ true
      → rank f i < length xs
      → (j : ℕ)
      → element_at f (set xs (rank f i) s) j ≡ (if j == i then some s else element_at f xs j)
  element_at-set t h j = elim (Bool-cases (j == i)) [
    | inl q ↦
        let e : j ≡ i = (==_iff j i).0 q in
        rw (q, e, t, get_elem?-set xs (rank f i) s (rank f i) h) (ground arith)
    | inr q ↦ elim (Bool-cases (f j)) [
      | inl tj ↦
          let apart = rank-injective f i j t tj q in
          rw (q, tj, get_elem?-set xs (rank f i) s (rank f j) h, apart)
      | inr fj ↦ rw (q, fj)
    ]
  ]

  module _ (g : ℕ → Bool) (added : (j : ℕ) → g j ≡ (if j == i then true else f j))
      (clear : f i ≡ false) (h : rank f i ≤ length xs) where
    element_at-insert_at :
        (j : ℕ)
        → element_at g (insert_at xs (rank f i) s) j
          ≡ (if j == i then some s else element_at f xs j)
    element_at-insert_at j = elim (Bool-cases (j == i)) [
      | inl q ↦
          let e : j ≡ i = (==_iff j i).0 q in
          let set_here : g j ≡ true = rw q at (added j) in
          let up_to : leb j i ≡ true = ground arith in
          let same : rank g j ≡ rank f i =
            rw up_to at (rank-added f g i added j clear) ∙ ap (rank f) e in
          rw (set_here, get_elem?-insert_at xs (rank f i) s (rank g j) h, q) (ground arith)
      | inr q ↦
          let kept : g j ≡ f j = rw q at (added j) in
          let counted = rank-added f g i added j clear in
          elim (Bool-cases (f j)) [
            | inl t ↦ elim (Bool-cases (ltb j i)) [
              | inl o ↦
                  let before : leb j i ≡ true = ground arith in
                  let same : rank g j ≡ rank f j = rw before at counted in
                  let below = rank_lt f j i (ltb→lt j i o) t in
                  rw (kept, t, get_elem?-insert_at xs (rank f i) s (rank g j) h, q, same)
                    (ground arith)
              | inr o ↦
                  let after : leb j i ≡ false = ground arith in
                  let next : rank g j ≡ suc (rank f j) = rw after at counted in
                  let above = rank_mono f i j (not-ltb→le j i o) in
                  let back : suc (rank f j) - 1 ≡ rank f j = omega arith in
                  rw (kept, t, get_elem?-insert_at xs (rank f i) s (rank g j) h, q, next, back)
                    (ground arith)
            ]
            | inr t ↦ rw (kept, t, q)
          ]
    ]

-- The signature at an index.
abbrev pub signature_at : {S : Type 0} → CompactBitArray → List S → ℕ → Option S
signature_at b sigs j = element_at (bit b) sigs j

-- There is one signature for each set bit.
pub record IsMultisig {S : Type 0} (b : CompactBitArray) (sigs : List S) : Type 0 where
  pub valid : IsValid b
  pub one_each : length sigs ≡ rank (bit b) (size b)

insert_at-length : {S : Type 0} (xs : List S) (s : S) → insert_at xs (length xs) s ≡ xs ++ s ∷ []
insert_at-length [] s = refl
insert_at-length (x ∷ xs) s = ap (λ ys. x ∷ ys) (insert_at-length xs s)

module _ {S : Type 0} (b : CompactBitArray) (sigs : List S) (s : S) (i : ℕ) (m : IsMultisig b sigs)
    (h : i < size b) where
  room : bit b i ≡ true → rank (bit b) i < length sigs
  room t = omega (arith, rank_lt (bit b) i (size b) h t, m.one_each)

  replaced : bit b i ≡ true → add_signature b sigs s i ≡ ok (b, set sigs (rank (bit b) i) s)
  unfolding add_signature
  replaced t =
      let fits : ltb (rank (bit b) i) (length sigs) ≡ true = lt→ltb _ _ (room t) in
      rw (num_true_bits_before-rank b m.valid i, get_index-bit b m.valid i, t, fits)

  at_most : rank (bit b) i ≤ length sigs
  at_most = omega (arith, rank_mono (bit b) i (size b), m.one_each)

  inserted :
      (b' : CompactBitArray)
      → set_index b i true ≡ ok (b', true)
      → bit b i ≡ false
      → add_signature b sigs s i ≡ ok (b', insert_at sigs (rank (bit b) i) s)
  unfolding add_signature
  inserted b' e t = elim (Bool-cases (rank (bit b) i == length sigs)) [
    | inl q ↦
        let last : insert_at sigs (rank (bit b) i) s ≡ sigs ++ s ∷ [] =
          rw ((==_iff _ _).0 q) (insert_at-length sigs s) in
        rw (num_true_bits_before-rank b m.valid i, get_index-bit b m.valid i, t, e, q, last)
    | inr q ↦
        let fits : ltb (length sigs) (rank (bit b) i) ≡ false = le→not-ltb _ _ at_most in
        rw (num_true_bits_before-rank b m.valid i, get_index-bit b m.valid i, t, e, q, fits)
  ]

module _ {S : Type 0} (b : CompactBitArray) (sigs : List S) (s : S) (i : ℕ) (m : IsMultisig b sigs)
    (h : i < size b) where
  one_more :
      (b' : CompactBitArray)
      → size b' ≡ size b
      → ((j : ℕ) → bit b' j ≡ (if j == i then true else bit b j))
      → bit b i ≡ false
      → length (insert_at sigs (rank (bit b) i) s) ≡ rank (bit b') (size b')
  one_more b' same_size bits clear =
      let beyond : leb (size b) i ≡ false = ground arith in
      let counted = rw beyond at (rank-added (bit b) (bit b') i bits (size b) clear) in
      length-insert_at sigs (rank (bit b) i) s
      ∙ ap suc m.one_each
      ∙ sym counted
      ∙ ap (rank (bit b')) (sym same_size)

as_before : (f : ℕ → Bool) (i : ℕ) → f i ≡ true → (j : ℕ) → f j ≡ (if j == i then true else f j)
as_before f i t j = elim (Bool-cases (j == i)) [
  | inl q ↦ rw (q, (==_iff j i).0 q, t)
  | inr q ↦ rw q
]

-- Where a bit array and its signatures belong together, AddSignature at an index in range
-- succeeds; they still belong together, the bit at that index is set and the others are as
-- before, the signature at that index is the new one, and every other index has the signature
-- that it had, or none.
pub add_signature_lem :
    {S : Type 0} (b : CompactBitArray) (sigs : List S) (s : S) (i : ℕ)
    → IsMultisig b sigs
    → i < size b
    → (b' : CompactBitArray) × (sigs' : List S) × (add_signature b sigs s i ≡ ok (b', sigs'))
      × IsMultisig b' sigs'
      × ((j : ℕ) → bit b' j ≡ (if j == i then true else bit b j))
      × ((j : ℕ) → signature_at b' sigs' j ≡ (if j == i then some s else signature_at b sigs j))
add_signature_lem b sigs s i m h = elim (Bool-cases (bit b i)) [
  | inl t ↦ (
    b,
    set sigs (rank (bit b) i) s,
    replaced b sigs s i m h t,
    record { valid = m.valid; one_each = length-set sigs (rank (bit b) i) s ∙ m.one_each },
    λ j. as_before (bit b) i t j,
    element_at-set (bit b) sigs i s t (room b sigs s i m h t),
  )
  | inr clear ↦
      let (b', e, valid, same_size, bits) = set_index-bit b m.valid i true h in
      (
        b',
        insert_at sigs (rank (bit b) i) s,
        inserted b sigs s i m h b' e clear,
        record { valid = valid; one_each = one_more b sigs s i m h b' same_size bits clear },
        bits,
        element_at-insert_at (bit b) sigs i s (bit b') bits clear (at_most b sigs s i m h),
      )
]
