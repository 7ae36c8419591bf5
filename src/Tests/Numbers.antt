-- ===== src/Tests/Numbers.antt =====
-- Runs of types/int.go and types/dec.go.
use plugchain_sdk_go.Prelude.{[], ◌∷◌, ◌*◌, ◌+◌, ◌^◌, ◌≤◌, ◌<◌, ◌≡◌, ℕ, refl, arith, false, ok}
use plugchain_sdk_go.Prelude.Integer
use plugchain_sdk_go.Prelude.Integer.{
  ℤ, pos, negsuc, ◌+ℤ◌, ◌-ℤ◌, ◌*ℤ◌, ◌≤ℤ◌, ◌<ℤ◌, mag, is_neg, signed, differ,
}
use plugchain_sdk_go.Int
use plugchain_sdk_go.Int.Bounds
use plugchain_sdk_go.Dec
use plugchain_sdk_go.Prelude.BitLen.{bit_len}
use plugchain_sdk_go.Dec.{precision_reuse, five_precision, chop_precision_and_round}
use plugchain_sdk_go.Dec.Root
use plugchain_sdk_go.Dec.Parse
use plugchain_sdk_go.Dec.Parse.{new_dec_from_str_minus}
use plugchain_sdk_go.Dec.Round.{RoundsTo}
use plugchain_sdk_go.Dec.Product
use plugchain_sdk_go.Dec.Product.{dec_mul-Checked, mul-new_dec_from_int, mul_truncate-Checked}
use plugchain_sdk_go.Dec.Quotient.{dec_quo-Checked}

-- One and a half, two and a half, and a third.
abbrev one_half : ℕ
one_half = 1500000000000000000

abbrev two_half : ℕ
two_half = 2500000000000000000

abbrev third : ℕ
third = 333333333333333333

round_two_half : chop_precision_and_round (pos two_half) ≡ pos 2
unfolding chop_precision_and_round Dec.round_half_even
round_two_half = refl

mul-Checked_example : Int.Bounds.Checked (pos 3 *ℤ negsuc 3) (Int.mul (pos 3) (negsuc 3))
mul-Checked_example = Int.Bounds.mul-Checked (pos 3) (negsuc 3) (omega arith) (omega arith)

dec_mul-Checked_example :
    (r : ℕ) × RoundsTo (third * third) r
    × Product.Checked (signed (differ false false) r) (Dec.mul (pos third) (pos third))
dec_mul-Checked_example = dec_mul-Checked (pos third) (pos third)

dec_quo-Checked_example :
    (r : ℕ) × Product.Checked (signed (differ false false) r) (Dec.quo (pos one_half) (pos third))
    × (r * precision_reuse * third
        ≤ one_half * precision_reuse * precision_reuse + five_precision * third)
    × (one_half * precision_reuse * precision_reuse
        < r * precision_reuse * third + (five_precision + 1) * third)
dec_quo-Checked_example = dec_quo-Checked (pos one_half) (pos third) (omega arith)

parse_one_half : Parse.new_dec_from_str (b'1' ∷ b'.' ∷ b'5' ∷ []) ≡ ok (pos one_half)
unfolding Parse.new_dec_from_str Parse.scaled Parse.combine
parse_one_half = refl

-- Two minus signs are accepted.
parse_minus_minus : Parse.new_dec_from_str (b'-' ∷ b'-' ∷ b'5' ∷ []) ≡ ok (pos (5 * 10 ^ 18))
unfolding Parse.new_dec_from_str Parse.scaled Parse.combine Integer.neg
parse_minus_minus = refl

two_cubed : Root.power (pos (2 * 10 ^ 18)) 3 ≡ ok (pos (8 * 10 ^ 18))
unfolding Root.power Root.power_loop Dec.mul Dec.checked Dec.one_dec bit_len ◌*ℤ◌
    chop_precision_and_round Dec.round_half_even
two_cubed = refl

root_of_four : Root.approx_sqrt (pos (4 * 10 ^ 18)) ≡ ok (pos (2 * 10 ^ 18))
unfolding Root.approx_sqrt Root.approx_root Root.newton_loop Root.newton_delta Root.power
    Root.power_loop Dec.mul Dec.checked Dec.one_dec bit_len ◌*ℤ◌ chop_precision_and_round
    Dec.round_half_even Dec.quo Dec.scaled_quo Dec.quo_int Integer.quo ◌+ℤ◌ Dec.is_negative
    Dec.is_zero Dec.equal Dec.gt Dec.smallest_dec Dec.abs Dec.sub ◌-ℤ◌ Int.new_int_from_uint64
    Dec.add
root_of_four = refl
