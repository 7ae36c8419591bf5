-- ===== src/Dec/Quotient.antt =====
-- `Quo`, `QuoTruncate` and `QuoRoundUp` of types/dec.go against the exact quotient.
use native.Mathlib.Nat.{
  mul_assoc, div-div-eq-div-mul, mul-div-mul_right, mul-div_cancel_left, div-mul-le_self,
  div-eq_of_lt, lt-div-mul-add, mul-le-mul_right,
}
use plugchain_sdk_go.Prelude.{
  ℕ, ◌+◌, ◌*◌, ◌/◌, ◌%◌, ◌^◌, ◌≤◌, ◌<◌, ◌≡◌, ◌≢◌, refl, ap, false, arith, ◌==◌, ok, panic,
  division_by_zero, if◌then◌else◌, Bool-cases, inl, inr, ==_iff,
}
use plugchain_sdk_go.Prelude.Integer.{
  pos, mag, is_neg, signed, differ, quo-signed, *ℤ_pos, signed-*_pos, differ-false, differ_self,
}
use plugchain_sdk_go.Dec.{
  Decimal, precision_reuse, five_precision, checked, round_half_even, chop_precision_and_truncate,
  chop_precision_and_round_up, quo, quo_truncate, quo_round_up, scaled_quo,
}
use plugchain_sdk_go.Dec.Round.{
  RoundsTo, RoundsTo-bounds, round_half_even-RoundsTo, round_half_even-*,
  chop_precision_and_round-signed,
}
use plugchain_sdk_go.Dec.Product.{Checked, checked-Checked, checked_in}

-- The quotient of the magnitudes that `Quo` rounds.
abbrev scaled : Decimal → Decimal → ℕ
scaled d d2 = mag d * precision_reuse * precision_reuse / mag d2

not_zero : (n : ℕ) → n ≢ 0 → (n == 0) ≡ false
not_zero n h = ground arith

scaled_quo_lem :
    (d d2 : Decimal)
    → mag d2 ≢ 0
    → scaled_quo d d2 ≡ ok (signed (differ (is_neg d) (is_neg d2)) (scaled d d2))
unfolding scaled_quo
scaled_quo_lem d d2 h = rw (*ℤ_pos d precision_reuse, signed-*_pos, not_zero (mag d2) h, quo-signed)

-- A zero divisor panics in each of the three.
pub quo_by_zero :
    (d d2 : Decimal)
    → mag d2 ≡ 0
    → (quo d d2 ≡ panic division_by_zero)
      × (quo_truncate d d2 ≡ panic division_by_zero)
      × (quo_round_up d d2 ≡ panic division_by_zero)
unfolding quo quo_truncate quo_round_up scaled_quo
quo_by_zero d d2 h = (rw h, rw h, rw h)

quo_lem :
    (d d2 : Decimal)
    → mag d2 ≢ 0
    → quo d d2 ≡ checked (signed (differ (is_neg d) (is_neg d2)) (round_half_even (scaled d d2)))
unfolding quo
quo_lem d d2 h = rw (scaled_quo_lem d d2 h, chop_precision_and_round-signed)

-- The bound between the rounded quotient `r` and the exact one, both times the divisor.
rounded_quotient :
    (n m : ℕ) (q r : ℕ)
    → 0 < m
    → q ≡ n / m
    → RoundsTo q r
    → (r * precision_reuse * m ≤ n + five_precision * m)
      × (n < r * precision_reuse * m + (five_precision + 1) * m)
rounded_quotient n m q r pos_m e h =
    let (lo, hi) = RoundsTo-bounds q r h in
    (
      omega (arith, mul-le-mul_right m lo, div-mul-le_self n m, ap (λ (t : ℕ). t * m) e),
      omega (arith, mul-le-mul_right m hi, lt-div-mul-add {a = n} pos_m, ap (λ (t : ℕ). t * m) e),
    )

-- For a divisor that is not zero, Quo is within half a unit of the last place and 10^-18 of a
-- unit more of the exact quotient, with its sign; it is returned if it is in range.
pub dec_quo-Checked :
    (d d2 : Decimal)
    → mag d2 ≢ 0
    → (r : ℕ) × Checked (signed (differ (is_neg d) (is_neg d2)) r) (quo d d2)
      × (r * precision_reuse * mag d2
          ≤ mag d * precision_reuse * precision_reuse + five_precision * mag d2)
      × (mag d * precision_reuse * precision_reuse
          < r * precision_reuse * mag d2 + (five_precision + 1) * mag d2)
dec_quo-Checked d d2 h =
    let bounds =
      rounded_quotient (mag d * precision_reuse * precision_reuse) (mag d2) (scaled d d2)
        (round_half_even (scaled d d2)) (omega arith) refl
        (round_half_even-RoundsTo (scaled d d2)) in
    (round_half_even (scaled d d2), rw (quo_lem d d2 h) (checked-Checked _), bounds.0, bounds.1)

cancelled :
    (n : ℕ) → 0 < n → n * precision_reuse * precision_reuse / n ≡ precision_reuse * precision_reuse
cancelled n h =
    rw (mul_assoc n precision_reuse precision_reuse)
      (mul-div_cancel_left (precision_reuse * precision_reuse) h)

-- A decimal that is not zero, divided by itself, is one.
pub quo_self : (d : Decimal) → mag d ≢ 0 → quo d d ≡ ok (pos precision_reuse)
quo_self d h =
    rw
      (
        quo_lem d d h,
        differ_self,
        cancelled (mag d) (omega arith),
        round_half_even-* precision_reuse,
      )
      (checked_in (pos precision_reuse) (omega arith))

-- For a divisor that is not zero, QuoTruncate is the exact quotient without what is behind the
-- last place, if it is in range.
pub quo_truncate-Checked :
    (d d2 : Decimal)
    → mag d2 ≢ 0
    → Checked
        (signed (differ (is_neg d) (is_neg d2)) (mag d * precision_reuse / mag d2))
        (quo_truncate d d2)
unfolding quo_truncate chop_precision_and_truncate
quo_truncate-Checked d d2 h =
    rw (scaled_quo_lem d d2 h, quo-signed, differ-false)
      (rw
        (
          div-div-eq-div-mul (mag d * precision_reuse * precision_reuse) (mag d2) precision_reuse,
          mul-div-mul_right {m = precision_reuse} (mag d * precision_reuse) (mag d2) (omega arith),
        )
        (checked-Checked _))

-- What `chopPrecisionAndRoundUp` makes of the truncated quotient `q`.
abbrev pub round_up : ℕ → ℕ
round_up q = if q % precision_reuse == 0 then q / precision_reuse else q / precision_reuse + 1

quo_round_up_lem :
    (n m : ℕ)
    → 0 < m
    → quo_round_up (pos n) (pos m) ≡ checked (pos (round_up (scaled (pos n) (pos m))))
unfolding quo_round_up chop_precision_and_round_up
quo_round_up_lem n m h = rw (scaled_quo_lem (pos n) (pos m) (omega arith)) (ground arith)

module _ (n m q k s : ℕ) (pos_m : 0 < m) (le : q * m ≤ n * precision_reuse * precision_reuse)
    (lt : n * precision_reuse * precision_reuse < q * m + m)
    (cut : q ≡ k * precision_reuse + s) where
  exact_up :
      s ≡ 0
      → m ≤ precision_reuse
      → (n * precision_reuse ≤ k * m) × (k * m < n * precision_reuse + m)
  exact_up z small = omega (arith, ap (λ (t : ℕ). t * m) cut, ap (λ (t : ℕ). t * m) z)

  inexact_up :
      0 < s
      → s < precision_reuse
      → (n * precision_reuse ≤ (k + 1) * m) × ((k + 1) * m < n * precision_reuse + m)
  inexact_up a b =
      omega (arith, ap (λ (t : ℕ). t * m) cut, mul-le-mul_right m a, mul-le-mul_right m b)

round_up-IsLeast :
    (n m : ℕ)
    → 0 < m
    → m ≤ precision_reuse
    → let r = round_up (scaled (pos n) (pos m)) in
      (n * precision_reuse ≤ r * m) × (r * m < n * precision_reuse + m)
round_up-IsLeast n m h small =
    let q : ℕ = n * precision_reuse * precision_reuse / m in
    let k : ℕ = q / precision_reuse in
    let s : ℕ = q % precision_reuse in
    let le = div-mul-le_self (n * precision_reuse * precision_reuse) m in
    let lt = lt-div-mul-add {a = n * precision_reuse * precision_reuse} h in
    elim (Bool-cases (s == 0)) [
      | inl z ↦ rw z (exact_up n m q k s h le lt (omega arith) ((==_iff s 0).0 z) small)
      | inr z ↦ rw z (inexact_up n m q k s h le lt (omega arith) (ground arith) (omega arith))
    ]

-- For operands that are not negative and a divisor of at most one, QuoRoundUp returns the
-- least decimal that is not below the exact quotient, if it is in range.
pub quo_round_up-IsLeast :
    (n m : ℕ)
    → 0 < m
    → m ≤ precision_reuse
    → (r : ℕ) × Checked (pos r) (quo_round_up (pos n) (pos m))
      × (n * precision_reuse ≤ r * m)
      × (r * m < n * precision_reuse + m)
quo_round_up-IsLeast n m h small =
    let least = round_up-IsLeast n m h small in
    (
      round_up (scaled (pos n) (pos m)),
      rw (quo_round_up_lem n m h) (checked-Checked _),
      least.0,
      least.1,
    )

-- A divisor that is more than 10^36 times the underlying integer of the dividend makes
-- `QuoRoundUp` return zero, which is below the exact quotient of two positive decimals.
pub quo_round_up_below :
    (n m : ℕ)
    → 0 < n
    → n * precision_reuse * precision_reuse < m
    → (quo_round_up (pos n) (pos m) ≡ ok (pos 0)) × (0 * m < n * precision_reuse)
quo_round_up_below n m h big = (
  rw (quo_round_up_lem n m (omega arith), div-eq_of_lt big) (checked_in (pos 0) (omega arith)),
  omega arith,
)

-- A quotient that has no more than 18 places and is in range is exact.
pub quo_exact :
    (n m k : ℕ)
    → 0 < m
    → k * m ≡ n * precision_reuse
    → k < 2 ^ 315
    → quo (pos n) (pos m) ≡ ok (pos k)
quo_exact n m k h e small =
    let whole : n * precision_reuse * precision_reuse ≡ m * (k * precision_reuse) =
      omega (arith, ap (λ (t : ℕ). t * precision_reuse) e) in
    rw
      (
        quo_lem (pos n) (pos m) (omega arith),
        whole,
        mul-div_cancel_left (k * precision_reuse) h,
        round_half_even-* k,
      )
      (checked_in (pos k) small)
