-- ===== src/Int.antt =====
-- types/int.go: `Int`, an integer of at most 255 bits, and the checks of its operations.
-- An `Int` that is not nil is modelled by its `big.Int`; the operations return fresh values.
pub mod Bounds
use plugchain_sdk_go.Prelude.{
  ℕ, zero, suc, ◌+◌, ◌-◌, ◌*◌, ◌^◌, ◌≤◌, ◌<◌, Bool, true, false, not, ◌&&◌, ◌||◌, ltb, leb, ◌==◌,
  if◌then◌else◌, Result, ok, err, panic, panic_if, ◌>>=◌, ◌>>◌, int_overflow, int_out_of_bound,
  int64_out_of_bound, division_by_zero, negative_decimal,
}
use plugchain_sdk_go.Prelude.Integer
use plugchain_sdk_go.Prelude.Integer.{
  ℤ, pos, negsuc, mag, is_neg, ◌+ℤ◌, ◌-ℤ◌, ◌*ℤ◌, ◌≤ℤ◌, ltb_ℤ, leb_ℤ, eqb_ℤ,
}
use plugchain_sdk_go.Prelude.BitLen.{bit_len}

abbrev pub max_bit_len : ℕ
max_bit_len = 255

-- The range that the type promises.
abbrev pub InRange : ℤ → Type 0
InRange i = mag i < 2 ^ max_bit_len

-- The test `BitLen() > maxBitLen`.
abbrev pub too_long : ℤ → Bool
too_long i = ltb max_bit_len (bit_len (mag i))

-- `big.Int.Sign`.
abbrev pub sign : ℤ → ℤ
sign (pos zero) = pos 0
sign (pos (suc n)) = pos 1
sign (negsuc n) = negsuc 0

-- int64 and uint64 arguments are integers of their range.
unfoldable pub new_int : ℤ → ℤ
new_int n = n

unfoldable pub new_int_from_uint64 : ℕ → ℤ
new_int_from_uint64 n = pos n

unfoldable pub new_int_from_big_int : ℤ → Result ℤ
new_int_from_big_int i = panic_if (too_long i) int_out_of_bound >> ok i

unfoldable pub new_int_with_decimal : ℤ → ℤ → Result ℤ
new_int_with_decimal n dec = do
  panic_if (is_neg dec) negative_decimal
  let i = n *ℤ pos (10 ^ mag dec)
  panic_if (too_long i) int_out_of_bound
  ok i

unfoldable pub zero_int : ℤ
zero_int = pos 0

unfoldable pub one_int : ℤ
one_int = pos 1

unfoldable pub is_int64 : ℤ → Bool
is_int64 i = leb_ℤ (negsuc (2 ^ 63 - 1)) i && ltb_ℤ i (pos (2 ^ 63))

unfoldable pub int64 : ℤ → Result ℤ
unfolding is_int64
int64 i = panic_if (not (is_int64 i)) int64_out_of_bound >> ok i

unfoldable pub is_uint64 : ℤ → Bool
is_uint64 i = leb_ℤ (pos 0) i && ltb_ℤ i (pos (2 ^ 64))

unfoldable pub uint64 : ℤ → Result ℕ
unfolding is_uint64
uint64 i = panic_if (not (is_uint64 i)) int64_out_of_bound >> ok (mag i)

unfoldable pub is_zero : ℤ → Bool
is_zero i = eqb_ℤ (sign i) (pos 0)

unfoldable pub is_negative : ℤ → Bool
is_negative i = eqb_ℤ (sign i) (negsuc 0)

unfoldable pub is_positive : ℤ → Bool
is_positive i = eqb_ℤ (sign i) (pos 1)

unfoldable pub equal : ℤ → ℤ → Bool
equal i i2 = eqb_ℤ i i2

unfoldable pub gt : ℤ → ℤ → Bool
gt i i2 = ltb_ℤ i2 i

unfoldable pub gte : ℤ → ℤ → Bool
gte i i2 = leb_ℤ i2 i

unfoldable pub lt : ℤ → ℤ → Bool
lt i i2 = ltb_ℤ i i2

unfoldable pub lte : ℤ → ℤ → Bool
lte i i2 = leb_ℤ i i2

unfoldable pub add : ℤ → ℤ → Result ℤ
add i i2 = do let res = i +ℤ i2; panic_if (too_long res) int_overflow; ok res

unfoldable pub add_raw : ℤ → ℤ → Result ℤ
unfolding add new_int
add_raw i i2 = add i (new_int i2)

unfoldable pub sub : ℤ → ℤ → Result ℤ
sub i i2 = do let res = i -ℤ i2; panic_if (too_long res) int_overflow; ok res

unfoldable pub sub_raw : ℤ → ℤ → Result ℤ
unfolding sub new_int
sub_raw i i2 = sub i (new_int i2)

-- The first test is on the lengths of the factors; a sum that is 0 is never above 256.
unfoldable pub mul : ℤ → ℤ → Result ℤ
mul i i2 = do
  panic_if (ltb (max_bit_len + 1) (bit_len (mag i) + bit_len (mag i2))) int_overflow
  let res = i *ℤ i2
  panic_if (too_long res) int_overflow
  ok res

unfoldable pub mul_raw : ℤ → ℤ → Result ℤ
unfolding mul new_int
mul_raw i i2 = mul i (new_int i2)

unfoldable pub quo : ℤ → ℤ → Result ℤ
quo i i2 = do panic_if (mag i2 == 0) division_by_zero; ok (Integer.quo i i2)

unfoldable pub quo_raw : ℤ → ℤ → Result ℤ
unfolding quo new_int
quo_raw i i2 = quo i (new_int i2)

-- `Int.Mod`
unfoldable pub modulo : ℤ → ℤ → Result ℤ
modulo i i2 = do panic_if (mag i2 == 0) division_by_zero; ok (Integer.mod_euclid i i2)

-- `Int.ModRaw`
unfoldable pub modulo_raw : ℤ → ℤ → Result ℤ
unfolding modulo new_int
modulo_raw i i2 = modulo i (new_int i2)

unfoldable pub neg : ℤ → ℤ
neg i = Integer.neg i

unfoldable pub min_int : ℤ → ℤ → ℤ
min_int i1 i2 = if ltb_ℤ i2 i1 then i2 else i1

unfoldable pub max_int : ℤ → ℤ → ℤ
max_int i i2 = if ltb_ℤ i i2 then i2 else i
