-- ===== src/Int/Bounds.antt =====
-- The 255-bit bound: when each operation of types/int.go panics, and what it returns otherwise.
use native.Mathlib.Nat.{mul-le-mul, le_trans, pow-le-pow_right, div-le_self}
use plugchain_sdk_go.Prelude.{
  ℕ, ◌+◌, ◌-◌, ◌*◌, ◌/◌, ◌^◌, ◌≤◌, ◌<◌, ◌≡◌, refl, true, false, ltb, arith, Split, split_lt,
  split_zero, split_in, ◌⊎◌, Result, ok, panic, int_overflow, inl, inr, Bool-cases,
  division_by_zero, ltb→lt, negative_decimal, int_out_of_bound,
}
use plugchain_sdk_go.Prelude.Integer
use plugchain_sdk_go.Prelude.Integer.{
  ℤ, pos, negsuc, mag, is_neg, ◌+ℤ◌, ◌-ℤ◌, ◌*ℤ◌, ◌≤ℤ◌, +ℤ_comm, eq_of_parts, int_laws, ltb_ℤ, mag-*,
  mag-signed, mag-neg,
}
use plugchain_sdk_go.Prelude.BitLen.{bit_len, bit_len-lt, bit_len-le, pow-le_of_bit_len, pow-add}
use plugchain_sdk_go.Int.{
  ℤ, InRange, too_long, add, sub, mul, quo, modulo, neg, min_int, max_int, new_int_from_big_int,
  new_int_with_decimal,
}

-- A result that is in range is returned as it is, any other makes the call panic.
abbrev pub Checked : ℤ → Result ℤ → Type 0
Checked exact r = Split (InRange exact) (r ≡ ok exact) (r ≡ panic int_overflow)

too_long_out : (i : ℤ) → ¬ InRange i → too_long i ≡ true
too_long_out i h = rw (bit_len-lt 255 (mag i)) (ground arith)

too_long_in : (i : ℤ) → InRange i → too_long i ≡ false
too_long_in i h = rw (bit_len-lt 255 (mag i)) (ground arith)

-- Addition is exact, or panics when the sum leaves the range.
pub add-Checked : (i i2 : ℤ) → Checked (i +ℤ i2) (add i i2)
unfolding add
add-Checked i i2 =
    split_lt _ _ (λ h. rw (too_long_in (i +ℤ i2) h)) (λ h. rw (too_long_out (i +ℤ i2) h))

-- Subtraction is exact, or panics when the difference leaves the range.
pub sub-Checked : (i i2 : ℤ) → Checked (i -ℤ i2) (sub i i2)
unfolding sub
sub-Checked i i2 =
    split_lt _ _ (λ h. rw (too_long_in (i -ℤ i2) h)) (λ h. rw (too_long_out (i -ℤ i2) h))

pow_product : (m n a b : ℕ) → 2 ^ m ≤ a → 2 ^ n ≤ b → 255 ≤ m + n → 2 ^ 255 ≤ a * b
pow_product m n a b ha hb h =
    le_trans (pow-le-pow_right {n = 2} (omega arith) h) (rw (pow-add m n) (mul-le-mul ha hb))

-- Where the lengths add up to more than 256, the product has more than 255 digits.
long_product : (a b : ℕ) → a < 2 ^ 255 → b < 2 ^ 255 → 256 < bit_len a + bit_len b → 2 ^ 255 ≤ a * b
long_product a b ha hb h =
    let la = bit_len-le a 255 ha in
    let lb = bit_len-le b 255 hb in
    pow_product (bit_len a - 1) (bit_len b - 1) a b
      (pow-le_of_bit_len (bit_len a - 1) a (omega arith))
      (pow-le_of_bit_len (bit_len b - 1) b (omega arith)) (omega arith)

-- For factors in range, Mul is exact, or panics when the product leaves the range of 255 bits.
pub mul-Checked : (i i2 : ℤ) → InRange i → InRange i2 → Checked (i *ℤ i2) (mul i i2)
unfolding mul
mul-Checked i i2 h h2 = elim (Bool-cases (ltb 256 (bit_len (mag i) + bit_len (mag i2)))) [
  | inl long ↦
      split_lt _ _
        (λ p.
          absurd (omega (arith, long_product (mag i) (mag i2) h h2 (ltb→lt _ _ long), mag-* i i2)))
        (λ _. rw long)
  | inr short ↦
      split_lt _ _ (λ p. rw (short, too_long_in (i *ℤ i2) p))
        (λ p. rw (short, too_long_out (i *ℤ i2) p))
]

-- A quotient of an integer in range is in range; a zero divisor panics.
pub quo-Checked :
    (i i2 : ℤ)
    → InRange i
    → Split
        (mag i2 ≡ 0)
        (quo i i2 ≡ panic division_by_zero)
        ((q : ℤ) × (quo i i2 ≡ ok q) × (q ≡ Integer.quo i i2) × InRange q)
unfolding quo
quo-Checked i i2 h =
    split_zero (mag i2) (λ z. rw z)
      (λ n. (
        Integer.quo i i2,
        ground arith,
        refl,
        unfold Integer.quo in rw mag-signed (omega (arith, div-le_self (mag i) (mag i2))),
      ))

-- A remainder is not negative and below the divisor's magnitude, and it differs from the dividend
-- by a multiple of the divisor; a zero divisor panics.
pub modulo-Checked :
    (i i2 : ℤ)
    → Split
        (mag i2 ≡ 0)
        (modulo i i2 ≡ panic division_by_zero)
        ((r : ℕ) × (modulo i i2 ≡ ok (pos r)) × (r < mag i2) × ((k : ℤ) × (i ≡ k *ℤ i2 +ℤ pos r)))
unfolding modulo
modulo-Checked i i2 =
    split_zero (mag i2) (λ z. rw z)
      (λ n.
        let (r, e, lt, k) = Integer.mod_euclid_lem i i2 (omega arith) in (r, ground arith, lt, k))

-- The opposite of an integer in range is in range.
pub neg-InRange : (i : ℤ) → InRange i → InRange (neg i)
unfolding neg
neg-InRange i h = rw (mag-neg i) h

-- The smaller and the larger of two integers are one of them each, and bound both.
pub min_int-max_int :
    (i i2 : ℤ)
    → (min_int i i2 ≤ℤ i)
      × (min_int i i2 ≤ℤ i2)
      × (i ≤ℤ max_int i i2)
      × (i2 ≤ℤ max_int i i2)
      × (min_int i i2 +ℤ max_int i i2 ≡ i +ℤ i2)
unfolding min_int max_int
min_int-max_int i i2 = ground (arith, +ℤ_comm i i2, eq_of_parts i i2)

-- A scaled integer is exact, or panics when it is out of range or the exponent is negative.
pub new_int_with_decimal-Checked :
    (n dec : ℤ)
    → ((is_neg dec ≡ true) × (new_int_with_decimal n dec ≡ panic negative_decimal))
      ⊎ ((is_neg dec ≡ false)
          × Split
              (InRange (n *ℤ pos (10 ^ mag dec)))
              (new_int_with_decimal n dec ≡ ok (n *ℤ pos (10 ^ mag dec)))
              (new_int_with_decimal n dec ≡ panic int_out_of_bound))
unfolding new_int_with_decimal
new_int_with_decimal-Checked n dec = elim (Bool-cases (is_neg dec)) [
  | inl h ↦ inl (h, rw h)
  | inr h ↦ inr (
    h,
    split_lt _ _ (λ p. rw (h, too_long_in (n *ℤ pos (10 ^ mag dec)) p))
        (λ p. rw (h, too_long_out (n *ℤ pos (10 ^ mag dec)) p)),
  )
]

module _ (a b : ℕ) where
  -- The operations on amounts that are in range, for a result that is.
  pub mul_pos : a < 2 ^ 255 → b < 2 ^ 255 → a * b < 2 ^ 255 → mul (pos a) (pos b) ≡ ok (pos (a * b))
  unfolding ◌*ℤ◌
  mul_pos ha hb h = split_in (mul-Checked (pos a) (pos b) ha hb) h

  pub add_pos : a + b < 2 ^ 255 → add (pos a) (pos b) ≡ ok (pos (a + b))
  add_pos h =
      let e : pos a +ℤ pos b ≡ pos (a + b) = omega int_laws in
      split_in (rw e at (add-Checked (pos a) (pos b))) h

  pub quo_pos : 0 < b → quo (pos a) (pos b) ≡ ok (pos (a / b))
  unfolding quo Integer.quo
  quo_pos h = ground arith

pub new_int_from_big_int_pos : (n : ℕ) → n < 2 ^ 255 → new_int_from_big_int (pos n) ≡ ok (pos n)
unfolding new_int_from_big_int
new_int_from_big_int_pos n h = rw (too_long_in (pos n) h) refl

pub sub_pos : (a b : ℕ) → b ≤ a → a < 2 ^ 255 → sub (pos a) (pos b) ≡ ok (pos (a - b))
sub_pos a b h ha =
    let e : pos a -ℤ pos b ≡ pos (a - b) = omega int_laws in
    split_in (rw e at (sub-Checked (pos a) (pos b))) (omega arith)
