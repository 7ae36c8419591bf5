-- ===== src/Dec.antt =====
-- types/dec.go: `Dec`, a decimal of 18 places, kept as the integer that is 10^18 times its value.
-- The methods that round work on a fresh `big.Int`, so their effect is the value they return.
pub mod Round
pub mod Product
pub mod Quotient
pub mod Root
pub mod Parse
pub mod Text
use plugchain_sdk_go.Prelude.{
  ℕ, zero, suc, ◌+◌, ◌-◌, ◌*◌, ◌/◌, ◌%◌, ◌^◌, ◌≤◌, ◌<◌, Bool, true, false, not, ◌&&◌, ◌||◌, ltb,
  leb, ◌==◌, if◌then◌else◌, Result, ok, err, panic, panic_if, ◌>>=◌, ◌>>◌, int_overflow,
  int64_out_of_bound, division_by_zero, too_much_precision, List, [], ◌∷◌, ◌++◌, length, take, drop,
  replicate, index_out_of_range,
}
use plugchain_sdk_go.Prelude.Integer
use plugchain_sdk_go.Prelude.Integer.{
  ℤ, pos, negsuc, mag, is_neg, signed, ◌+ℤ◌, ◌-ℤ◌, ◌*ℤ◌, ◌≤ℤ◌, ltb_ℤ, leb_ℤ, eqb_ℤ,
}
use plugchain_sdk_go.Prelude.BitLen.{bit_len}
use plugchain_sdk_go.Prelude.Text.{print}
use plugchain_sdk_go.Int

abbrev pub precision : ℕ
precision = 18

abbrev pub decimal_precision_bits : ℕ
decimal_precision_bits = 60

-- 10^18, the underlying integer of the decimal 1, and half of it.
abbrev pub precision_reuse : ℕ
precision_reuse = 10 ^ precision

abbrev pub five_precision : ℕ
five_precision = precision_reuse / 2

abbrev pub Decimal : Type 0
Decimal = ℤ

-- The range that the arithmetic keeps.
abbrev pub InRange : Decimal → Type 0
InRange d = mag d < 2 ^ (255 + decimal_precision_bits)

-- `if x.BitLen() > 255+DecimalPrecisionBits { panic("Int overflow") }; return Dec{x}`
unfoldable pub checked : ℤ → Result Decimal
checked x = panic_if (ltb (255 + decimal_precision_bits) (bit_len (mag x))) int_overflow >> ok x

unfoldable pub zero_dec : Decimal
zero_dec = pos 0

unfoldable pub one_dec : Decimal
one_dec = pos precision_reuse

unfoldable pub smallest_dec : Decimal
smallest_dec = pos 1

-- The table `precisionMultipliers` at `prec`, and its fault at a negative index.
unfoldable pub precision_multiplier : ℤ → Result ℕ
precision_multiplier (pos prec) = do
  panic_if (ltb precision prec) too_much_precision
  ok (10 ^ (precision - prec))
precision_multiplier (negsuc prec) = panic index_out_of_range

unfoldable pub new_dec_with_prec : ℤ → ℤ → Result Decimal
unfolding precision_multiplier
new_dec_with_prec i prec = do m ← precision_multiplier prec; ok (i *ℤ pos m)

unfoldable pub new_dec : ℤ → Result Decimal
unfolding new_dec_with_prec
new_dec i = new_dec_with_prec i (pos 0)

-- `NewDecFromBigIntWithPrec` and `NewDecFromIntWithPrec`
unfoldable pub new_dec_from_big_int_with_prec : ℤ → ℤ → Result Decimal
unfolding precision_multiplier
new_dec_from_big_int_with_prec i prec = do m ← precision_multiplier prec; ok (i *ℤ pos m)

-- The precision 0 of `NewDecFromBigInt` and `NewDecFromInt` has the multiplier 10^18.
unfoldable pub new_dec_from_big_int : ℤ → Decimal
new_dec_from_big_int i = i *ℤ pos precision_reuse

-- `NewDecFromInt`, and `Int.ToDec` of types/int.go
unfoldable pub new_dec_from_int : ℤ → Decimal
new_dec_from_int i = i *ℤ pos precision_reuse

unfoldable pub is_zero : Decimal → Bool
is_zero d = mag d == 0

unfoldable pub is_negative : Decimal → Bool
is_negative d = is_neg d

unfoldable pub is_positive : Decimal → Bool
is_positive d = ltb_ℤ (pos 0) d

unfoldable pub equal : Decimal → Decimal → Bool
equal d d2 = eqb_ℤ d d2

unfoldable pub gt : Decimal → Decimal → Bool
gt d d2 = ltb_ℤ d2 d

unfoldable pub gte : Decimal → Decimal → Bool
gte d d2 = leb_ℤ d2 d

unfoldable pub lt : Decimal → Decimal → Bool
lt d d2 = ltb_ℤ d d2

unfoldable pub lte : Decimal → Decimal → Bool
lte d d2 = leb_ℤ d d2

unfoldable pub neg : Decimal → Decimal
neg d = Integer.neg d

unfoldable pub abs : Decimal → Decimal
abs d = pos (mag d)

unfoldable pub add : Decimal → Decimal → Result Decimal
add d d2 = checked (d +ℤ d2)

unfoldable pub sub : Decimal → Decimal → Result Decimal
sub d d2 = checked (d -ℤ d2)

-- The body of `chopPrecisionAndRound` at a number that is not negative.
unfoldable pub round_half_even : ℕ → ℕ
round_half_even d =
    let quo = d / precision_reuse in
    let rem = d % precision_reuse in
    if rem == 0
    then quo
    else if ltb rem five_precision
    then quo
    else if ltb five_precision rem
    then quo + 1
    else if quo % 2 == 0
    then quo
    else quo + 1

-- A negative number is rounded by its absolute value.
unfoldable pub chop_precision_and_round : ℤ → ℤ
unfolding round_half_even
chop_precision_and_round d =
    if is_neg d
    then Integer.neg (pos (round_half_even (mag (Integer.neg d))))
    else pos (round_half_even (mag d))

unfoldable pub chop_precision_and_truncate : ℤ → ℤ
chop_precision_and_truncate d = Integer.quo d (pos precision_reuse)

unfoldable pub chop_precision_and_round_up : ℤ → ℤ
chop_precision_and_round_up d =
    if is_neg d
    then Integer.neg (chop_precision_and_truncate (Integer.neg d))
    else (let quo = mag d / precision_reuse in
        let rem = mag d % precision_reuse in if rem == 0 then pos quo else pos (quo + 1))

unfoldable pub mul : Decimal → Decimal → Result Decimal
mul d d2 = checked (chop_precision_and_round (d *ℤ d2))

unfoldable pub mul_truncate : Decimal → Decimal → Result Decimal
mul_truncate d d2 = checked (chop_precision_and_truncate (d *ℤ d2))

unfoldable pub mul_int : Decimal → ℤ → Result Decimal
mul_int d i = checked (d *ℤ i)

unfoldable pub mul_int64 : Decimal → ℤ → Result Decimal
mul_int64 d i = checked (d *ℤ i)

-- `new(big.Int).Quo`, which panics at a zero divisor.
unfoldable pub big_quo : ℤ → ℤ → Result ℤ
big_quo a b = panic_if (mag b == 0) division_by_zero >> ok (Integer.quo a b)

-- The dividend that the three quotients share: the precision is multiplied in twice.
unfoldable pub scaled_quo : Decimal → Decimal → Result ℤ
unfolding big_quo
scaled_quo d d2 = big_quo (d *ℤ pos precision_reuse *ℤ pos precision_reuse) d2

-- `Dec.Quo`
unfoldable pub quo : Decimal → Decimal → Result Decimal
quo d d2 = do checked (chop_precision_and_round (← scaled_quo d d2))

unfoldable pub quo_truncate : Decimal → Decimal → Result Decimal
quo_truncate d d2 = do checked (chop_precision_and_truncate (← scaled_quo d d2))

unfoldable pub quo_round_up : Decimal → Decimal → Result Decimal
quo_round_up d d2 = do checked (chop_precision_and_round_up (← scaled_quo d d2))

unfoldable pub quo_int : Decimal → ℤ → Result Decimal
unfolding big_quo
quo_int d i = big_quo d i

unfoldable pub quo_int64 : Decimal → ℤ → Result Decimal
unfolding big_quo
quo_int64 d i = big_quo d i

unfoldable pub is_integer : Decimal → Bool
is_integer d = mag (Integer.rem d (pos precision_reuse)) == 0

unfoldable pub round_int64 : Decimal → Result ℤ
unfolding Int.int64
round_int64 d = Int.int64 (chop_precision_and_round d)

unfoldable pub round_int : Decimal → Result ℤ
unfolding Int.new_int_from_big_int
round_int d = Int.new_int_from_big_int (chop_precision_and_round d)

unfoldable pub truncate_int64 : Decimal → Result ℤ
unfolding Int.int64
truncate_int64 d = Int.int64 (chop_precision_and_truncate d)

unfoldable pub truncate_int : Decimal → Result ℤ
unfolding Int.new_int_from_big_int
truncate_int d = Int.new_int_from_big_int (chop_precision_and_truncate d)

unfoldable pub truncate_dec : Decimal → Decimal
unfolding new_dec_from_big_int
truncate_dec d = new_dec_from_big_int (chop_precision_and_truncate d)

-- `big.Int.QuoRem` rounds the quotient towards zero and gives the remainder the dividend's sign.
unfoldable pub ceil : Decimal → Decimal
unfolding new_dec_from_big_int
ceil d =
    let quo = Integer.quo d (pos precision_reuse) in
    let rem = Integer.rem d (pos precision_reuse) in
    if mag rem == 0
    then new_dec_from_big_int quo
    else if is_neg rem
    then new_dec_from_big_int quo
    else new_dec_from_big_int (quo +ℤ pos 1)

unfoldable pub min_dec : Decimal → Decimal → Decimal
min_dec d1 d2 = if ltb_ℤ d1 d2 then d1 else d2

unfoldable pub max_dec : Decimal → Decimal → Decimal
max_dec d1 d2 = if ltb_ℤ d1 d2 then d2 else d1

-- The loop of `DecsEqual`; the lists have one length there.
all_equal : List Decimal → List Decimal → Bool
all_equal (d1 ∷ d1s) (d2 ∷ d2s) = if not (eqb_ℤ d1 d2) then false else all_equal d1s d2s
all_equal _ _ = true

unfoldable pub decs_equal : List Decimal → List Decimal → Bool
unfolding all_equal
decs_equal d1s d2s = if not (length d1s == length d2s) then false else all_equal d1s d2s

-- `Dec.String` at the decimal digits of the absolute value: the digits behind the point are the last
-- eighteen, with zeros before them where there are fewer.
unfoldable pub with_point : List ℕ → List ℕ
with_point bz_int =
    let input_size : ℕ = length bz_int in
    if leb input_size precision
    then b'0' ∷ b'.' ∷ (replicate (precision - input_size) b'0' ++ bz_int)
    else (let dec_point_place : ℕ = input_size - precision in
        take dec_point_place bz_int ++ b'.' ∷ drop dec_point_place bz_int)

-- `Dec.String`, which `Format` writes
unfoldable pub dec_string : Decimal → List ℕ
unfolding with_point print
dec_string d =
    let bz_str : List ℕ = with_point (print (mag d)) in if is_neg d then b'-' ∷ bz_str else bz_str
