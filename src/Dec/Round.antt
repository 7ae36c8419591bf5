-- ===== src/Dec/Round.antt =====
-- The rounding helpers of types/dec.go against a description of rounding to the nearest integer.
use mathlib.Core.Path.{subst}
use plugchain_sdk_go.Prelude.{
  ℕ, zero, suc, ◌+◌, ◌*◌, ◌/◌, ◌%◌, ◌≤◌, ◌<◌, ◌≡◌, ◌↔◌, ◌⊎◌, refl, ap, ◌∙◌, Bool, true, false,
  arith, ◌==◌, if◌then◌else◌,
}
use plugchain_sdk_go.Prelude.Integer
use plugchain_sdk_go.Prelude.Integer.{
  ℤ, pos, negsuc, mag, is_neg, signed, ◌+ℤ◌, ◌-ℤ◌, ◌*ℤ◌, ◌≤ℤ◌, ◌<ℤ◌, pos_part, neg_part, int_laws,
  +ℤ_parts, mag-neg, neg-neg, neg-signed, neg_pos, neg_negsuc, signed-*, signed_parts, mag-signed,
  sub_ℕ,
}
use plugchain_sdk_go.Dec.{
  Decimal, precision_reuse, five_precision, round_half_even, chop_precision_and_round,
  chop_precision_and_truncate, ceil, truncate_dec, new_dec_from_big_int,
}

-- `q` is an integer nearest to `d / 10^18`, and an even one if `d` lies halfway between two.
abbrev pub RoundsTo : ℕ → ℕ → Type 0
RoundsTo d q =
    ((q % 2 ≡ 0)
      × (q * precision_reuse ≤ d + five_precision)
      × (d ≤ q * precision_reuse + five_precision))
    ⊎ ((q * precision_reuse < d + five_precision) × (d < q * precision_reuse + five_precision))

pub RoundsTo-bounds :
    (d q : ℕ)
    → RoundsTo d q
    → (q * precision_reuse ≤ d + five_precision) × (d ≤ q * precision_reuse + five_precision)
RoundsTo-bounds d q h = ground arith

pub round_half_even-RoundsTo : (d : ℕ) → RoundsTo d (round_half_even d)
unfolding round_half_even
round_half_even-RoundsTo d = ground arith

-- No other integer is nearest in this sense.
pub RoundsTo-unique : (d p q : ℕ) → RoundsTo d p → RoundsTo d q → p ≡ q
RoundsTo-unique d p q hp hq = ground arith

pub round_half_even_mono : (d e : ℕ) → d ≤ e → round_half_even d ≤ round_half_even e
round_half_even_mono d e h = ground (arith, round_half_even-RoundsTo d, round_half_even-RoundsTo e)

-- A whole number is not changed, and half of the divisor is not reached by less.
pub round_half_even-* : (n : ℕ) → round_half_even (n * precision_reuse) ≡ n
round_half_even-* n = ground (arith, round_half_even-RoundsTo (n * precision_reuse))

-- The result of `chopPrecisionAndRound` has the sign of its argument and the rounded magnitude.
pub chop_precision_and_round_lem :
    (d : ℤ) → chop_precision_and_round d ≡ signed (is_neg d) (round_half_even (mag d))
unfolding chop_precision_and_round
chop_precision_and_round_lem (pos n) = refl
chop_precision_and_round_lem (negsuc n) = rw (neg_negsuc n) (neg_pos (round_half_even (suc n)))

pub chop_precision_and_round-signed :
    (s : Bool) (n : ℕ) → chop_precision_and_round (signed s n) ≡ signed s (round_half_even n)
chop_precision_and_round-signed false n = chop_precision_and_round_lem (pos n)
chop_precision_and_round-signed true zero = unfold chop_precision_and_round round_half_even in refl
chop_precision_and_round-signed true (suc n) = chop_precision_and_round_lem (negsuc n)

-- For a number that is not negative, `chopPrecisionAndRound` returns `q` exactly if `q` is an
-- integer nearest to the number divided by 10^18, and is even where two are nearest.
pub chop_precision_and_round_iff :
    (d q : ℕ) → (chop_precision_and_round (pos d) ≡ pos q) ↔ RoundsTo d q
unfolding chop_precision_and_round
chop_precision_and_round_iff d q = (
  λ e. subst (RoundsTo d) (ap mag e) (round_half_even-RoundsTo d),
  λ h. ap pos (RoundsTo-unique d (round_half_even d) q (round_half_even-RoundsTo d) h),
)

-- Rounding commutes with the sign.
pub chop_precision_and_round-neg :
    (d : ℤ) → chop_precision_and_round (Integer.neg d) ≡ Integer.neg (chop_precision_and_round d)
unfolding chop_precision_and_round
chop_precision_and_round-neg (pos zero) = unfold round_half_even Integer.neg in refl
chop_precision_and_round-neg (pos (suc n)) = unfold Integer.neg in refl
chop_precision_and_round-neg (negsuc n) = unfold Integer.neg in rw neg-neg

signed_mono :
    (d e : ℤ)
    → d ≤ℤ e
    → signed (is_neg d) (round_half_even (mag d)) ≤ℤ signed (is_neg e) (round_half_even (mag e))
signed_mono (pos m) (pos n) h = omega (arith, round_half_even_mono m n)
signed_mono (pos m) (negsuc n) h = absurd (omega arith)
signed_mono (negsuc m) (pos n) h = omega (arith, signed_parts (round_half_even (suc m)))
signed_mono (negsuc m) (negsuc n) h = omega (
  arith,
  signed_parts (round_half_even (suc m)),
  signed_parts (round_half_even (suc n)),
  round_half_even_mono (suc n) (suc m),
)

-- Rounding keeps the order.
pub chop_precision_and_round_mono :
    (d e : ℤ) → d ≤ℤ e → chop_precision_and_round d ≤ℤ chop_precision_and_round e
chop_precision_and_round_mono d e h =
    rw (chop_precision_and_round_lem d, chop_precision_and_round_lem e) (signed_mono d e h)

rounded_to_zero :
    (r : ℕ) (x y : ℤ)
    → (if mag (signed true r) == 0 then x else (if is_neg (signed true r) then x else y)) ≡ x
rounded_to_zero zero x y = refl
rounded_to_zero (suc r) x y = ground arith

module _ (n : ℕ) where
  ceil_pos :
      ceil (pos n)
      ≡ pos (
          (if n % precision_reuse == 0 then n / precision_reuse else n / precision_reuse + 1)
          * precision_reuse)
  unfolding ceil Integer.quo Integer.rem ◌+ℤ◌ ◌*ℤ◌
  ceil_pos = ground arith

  ceil_neg : ceil (negsuc n) ≡ signed true (suc n / precision_reuse * precision_reuse)
  unfolding ceil Integer.quo Integer.rem new_dec_from_big_int
  ceil_neg =
      rounded_to_zero (suc n % precision_reuse) _
        ((signed true (suc n / precision_reuse) +ℤ pos 1) *ℤ pos precision_reuse)
      ∙ signed-* true (suc n / precision_reuse) (pos precision_reuse)

-- Ceil returns the least whole decimal that is not below its argument.
pub ceil-IsLeast :
    (d : Decimal)
    → ((k : ℤ) × (ceil d ≡ k *ℤ pos precision_reuse))
      × (d ≤ℤ ceil d)
      × (ceil d <ℤ d +ℤ pos precision_reuse)
ceil-IsLeast (pos n) = (
  (
    pos (if n % precision_reuse == 0 then n / precision_reuse else n / precision_reuse + 1),
    unfold ◌*ℤ◌ in ceil_pos n,
  ),
  rw ceil_pos (ground arith),
  rw ceil_pos (ground (arith, +ℤ_parts (pos n) (pos precision_reuse))),
)
ceil-IsLeast (negsuc n) = (
  (signed true (suc n / precision_reuse), rw (ceil_neg, signed-*)),
  rw ceil_neg (omega (arith, signed_parts (suc n / precision_reuse * precision_reuse))),
  rw ceil_neg (omega (int_laws, signed_parts (suc n / precision_reuse * precision_reuse))),
)

-- `TruncateDec` drops the places behind the point: what is left has the sign of the argument,
-- and is the whole part of its magnitude.
pub truncate_dec_lem :
    (d : Decimal) → truncate_dec d ≡ signed (is_neg d) (mag d / precision_reuse * precision_reuse)
unfolding truncate_dec Integer.quo chop_precision_and_truncate
truncate_dec_lem (pos n) = signed-* false (n / precision_reuse) (pos precision_reuse)
truncate_dec_lem (negsuc n) = signed-* true (suc n / precision_reuse) (pos precision_reuse)
