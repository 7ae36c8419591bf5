-- ===== src/Dec/Product.antt =====
-- `Mul`, `MulTruncate` and the bound that every result of types/dec.go is checked against.
use native.Mathlib.Nat.{mul_assoc}
use plugchain_sdk_go.Prelude.{
  ℕ, ◌*◌, ◌/◌, ◌≡◌, refl, ap, arith, Split, split_lt, split_in, Result, ok, panic, int_overflow,
}
use plugchain_sdk_go.Prelude.Integer.{
  ℤ, pos, mag, is_neg, signed, differ, ◌*ℤ◌, quo-signed, *ℤ_comm, differ-false, *ℤ_pos, *ℤ-signed,
}
use plugchain_sdk_go.Prelude.BitLen.{bit_len-lt}
use plugchain_sdk_go.Dec.{
  Decimal, InRange, precision_reuse, checked, round_half_even, mul, mul_truncate,
  chop_precision_and_truncate, mul_int, new_dec_from_int,
}
use plugchain_sdk_go.Dec.Round.{
  RoundsTo, round_half_even-RoundsTo, round_half_even-*, chop_precision_and_round-signed,
}

-- A result that is in range is returned as it is, any other makes the call panic.
abbrev pub Checked : ℤ → Result Decimal → Type 0
Checked exact r = Split (InRange exact) (r ≡ ok exact) (r ≡ panic int_overflow)

pub checked-Checked : (x : ℤ) → Checked x (checked x)
unfolding checked
checked-Checked x =
    split_lt _ _ (λ h. rw (bit_len-lt 315 (mag x)) (ground arith))
      (λ h. rw (bit_len-lt 315 (mag x)) (ground arith))

pub checked_in : (x : ℤ) → InRange x → checked x ≡ ok x
checked_in x h = split_in (checked-Checked x) h

mul_lem :
    (d d2 : Decimal)
    → mul d d2 ≡ checked (signed (differ (is_neg d) (is_neg d2)) (round_half_even (mag d * mag d2)))
unfolding mul ◌*ℤ◌
mul_lem d d2 =
    ap checked (chop_precision_and_round-signed (differ (is_neg d) (is_neg d2)) (mag d * mag d2))

-- A product has the sign that its factors give it and a magnitude nearest to the exact one, with
-- ties to even; it is returned if it has at most 315 bits, and the call panics otherwise.
pub dec_mul-Checked :
    (d d2 : Decimal)
    → (r : ℕ) × RoundsTo (mag d * mag d2) r
      × Checked (signed (differ (is_neg d) (is_neg d2)) r) (mul d d2)
dec_mul-Checked d d2 = (
  round_half_even (mag d * mag d2),
  round_half_even-RoundsTo (mag d * mag d2),
  rw (mul_lem d d2) (checked-Checked _),
)

pub mul_comm_lem : (d d2 : Decimal) → mul d d2 ≡ mul d2 d
unfolding mul
mul_comm_lem d d2 = rw (*ℤ_comm d d2)

-- Multiplying by a whole decimal is the product with the integer.
pub mul-new_dec_from_int : (d : Decimal) (i : ℤ) → mul d (new_dec_from_int i) ≡ mul_int d i
unfolding mul new_dec_from_int mul_int
mul-new_dec_from_int d i =
    rw
      (
        *ℤ_pos i precision_reuse,
        *ℤ-signed d (is_neg i) (mag i * precision_reuse),
        chop_precision_and_round-signed,
        ← mul_assoc (mag d) (mag i) precision_reuse,
        round_half_even-*,
      )
      (unfold ◌*ℤ◌ in refl)

-- MulTruncate drops what is behind the last place, towards zero, and checks the range.
pub mul_truncate-Checked :
    (d d2 : Decimal)
    → Checked
        (signed (differ (is_neg d) (is_neg d2)) (mag d * mag d2 / precision_reuse))
        (mul_truncate d d2)
unfolding mul_truncate chop_precision_and_truncate ◌*ℤ◌
mul_truncate-Checked d d2 =
    rw
      (
        quo-signed (differ (is_neg d) (is_neg d2)) (mag d * mag d2) (pos precision_reuse),
        differ-false,
      )
      (checked-Checked _)
