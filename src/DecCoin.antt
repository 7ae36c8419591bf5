-- ===== src/DecCoin.antt =====
-- types/dec_coin.go: a coin of a decimal amount, and sets of such coins, by the shared code of
-- `CoinSet` over the addition of types/dec.go. The amount is the underlying integer of the `Dec`.
pub mod Sums
pub mod Loops
use plugchain_sdk_go.Prelude.{
  ℕ, Bool, true, false, not, ◌&&◌, ◌||◌, ◌≡◌, if◌then◌else◌, List, [], ◌∷◌, length, ◌==◌, ◌-◌, ◌++◌,
  replicate, Option, none, some, Result, ok, err, panic, ◌>>=◌, ◌>>◌, panic_if, must,
  negative_coin_amount, denom_mismatch, zero_decimal,
}
use plugchain_sdk_go.Prelude.Integer
use plugchain_sdk_go.Prelude.Integer.{ℤ, pos, is_neg, ltb_ℤ, eqb_ℤ, mag}
use plugchain_sdk_go.Denom.{Denom, denom_eq, must_validate_denom, matches_denom}
use plugchain_sdk_go.Dec
use plugchain_sdk_go.Dec.{Decimal}
use plugchain_sdk_go.CoinSet
use plugchain_sdk_go.CoinSet.{Coin, is_zero, is_negative, remove_zero_coins, all_coins}
use plugchain_sdk_go.Coin

abbrev pub DecCoin : Type 0
DecCoin = CoinSet.Coin

unfoldable pub new_dec_coin : Denom → ℤ → Result DecCoin
unfolding Coin.validate Dec.new_dec_from_int
new_dec_coin denom amount = do
  must (Coin.validate denom amount)
  ok (record { denom = denom; amount = Dec.new_dec_from_int amount })

unfoldable pub new_dec_coin_from_dec : Denom → Decimal → Result DecCoin
unfolding must_validate_denom
new_dec_coin_from_dec denom amount = do
  must_validate_denom denom
  panic_if (is_neg amount) negative_coin_amount
  ok (record { denom = denom; amount = amount })

unfoldable pub new_dec_coin_from_coin : CoinSet.Coin → Result DecCoin
unfolding new_dec_coin
new_dec_coin_from_coin coin = new_dec_coin coin.denom coin.amount

-- `DecCoin.IsGTE`
unfoldable pub is_gte : DecCoin → DecCoin → Result Bool
is_gte a b = do
  panic_if (not (denom_eq a.denom b.denom)) denom_mismatch
  ok (not (ltb_ℤ a.amount b.amount))

-- `DecCoin.IsLT`
unfoldable pub is_lt_coin : DecCoin → DecCoin → Result Bool
is_lt_coin a b = do
  panic_if (not (denom_eq a.denom b.denom)) denom_mismatch
  ok (ltb_ℤ a.amount b.amount)

-- `DecCoin.Add`
abbrev pub add_coin : DecCoin → DecCoin → Result DecCoin
add_coin = CoinSet.add_coin Dec.add

-- `DecCoin.Sub`
unfoldable pub sub_coin : DecCoin → DecCoin → Result DecCoin
sub_coin a b = do
  panic_if (not (denom_eq a.denom b.denom)) denom_mismatch
  res ← Dec.sub a.amount b.amount
  panic_if (is_neg res) negative_coin_amount
  ok (record { denom = a.denom; amount = res })

-- `DecCoin.TruncateDecimal`
unfoldable pub truncate_decimal_coin : DecCoin → Result (CoinSet.Coin × DecCoin)
truncate_decimal_coin c = do
  truncated ← Dec.truncate_int c.amount
  change ← Dec.sub c.amount (Dec.new_dec_from_int truncated)
  coin ← Coin.new_coin c.denom truncated
  rest ← new_dec_coin_from_dec c.denom change
  ok (coin, rest)

-- `DecCoin.IsValid`
unfoldable pub is_valid_coin : DecCoin → Bool
is_valid_coin c = if not (matches_denom c.denom) then false else not (is_negative c)

abbrev pub DecCoins : Type 0
DecCoins = List DecCoin

-- `DecCoins.Add`
abbrev pub add : DecCoins → DecCoins → Result DecCoins
add = CoinSet.safe_add Dec.add

abbrev pub negative : DecCoins → DecCoins
negative [] = []
negative (c ∷ cs) = record { denom = c.denom; amount = Integer.neg c.amount } ∷ negative cs

unfoldable pub is_any_negative : DecCoins → Bool
is_any_negative [] = false
is_any_negative (c ∷ cs) = is_negative c || is_any_negative cs

unfoldable pub safe_sub : DecCoins → DecCoins → Result (DecCoins × Bool)
safe_sub coins coins_b = do diff ← add coins (negative coins_b); ok (diff, is_any_negative diff)

-- `DecCoins.Sub`
unfoldable pub sub : DecCoins → DecCoins → Result DecCoins
sub coins coins_b =
    safe_sub coins coins_b >>= λ result. panic_if result.1 negative_coin_amount >> ok result.0

-- The loop of `Intersect`.
unfoldable pub intersect_loop : DecCoins → DecCoins → Result DecCoins
intersect_loop [] coins_b = ok []
intersect_loop (c ∷ cs) coins_b = do
  other ← CoinSet.amount_of coins_b c.denom
  rest ← intersect_loop cs coins_b
  ok (record { denom = c.denom; amount = Dec.min_dec c.amount other } ∷ rest)

unfoldable pub intersect : DecCoins → DecCoins → Result DecCoins
intersect coins coins_b = do res ← intersect_loop coins coins_b; ok (remove_zero_coins res)

-- The loop that `MulDec`, `MulDecTruncate`, `QuoDec` and `QuoDecTruncate` run: each amount is
-- replaced by `f` of it, and what is not zero is added to the result.
unfoldable pub scale_loop : (Decimal → Result Decimal) → DecCoins → DecCoins → Result DecCoins
scale_loop f [] res = ok res
scale_loop f (c ∷ cs) res = do
  amount ← f c.amount
  let product : DecCoin = record { denom = c.denom; amount = amount }
  next ← (if is_zero product then ok res else add res (product ∷ []))
  scale_loop f cs next

unfoldable pub mul_dec : DecCoins → Decimal → Result DecCoins
mul_dec coins d = scale_loop (λ amount. Dec.mul amount d) coins []

unfoldable pub mul_dec_truncate : DecCoins → Decimal → Result DecCoins
mul_dec_truncate coins d = scale_loop (λ amount. Dec.mul_truncate amount d) coins []

unfoldable pub quo_dec : DecCoins → Decimal → Result DecCoins
quo_dec coins d =
    panic_if (mag d == 0) zero_decimal >> scale_loop (λ amount. Dec.quo amount d) coins []

unfoldable pub quo_dec_truncate : DecCoins → Decimal → Result DecCoins
quo_dec_truncate coins d =
    panic_if (mag d == 0) zero_decimal >> scale_loop (λ amount. Dec.quo_truncate amount d) coins []

-- `DecCoins.TruncateDecimal`: the whole parts and the changes, each added up.
unfoldable pub truncate_decimal_loop :
    DecCoins → List CoinSet.Coin → DecCoins → Result (List CoinSet.Coin × DecCoins)
truncate_decimal_loop [] whole changes = ok (whole, changes)
truncate_decimal_loop (c ∷ cs) whole changes = do
  parts ← truncate_decimal_coin c
  whole' ← (if is_zero parts.0 then ok whole else Coin.add whole (parts.0 ∷ []))
  changes' ← (if is_zero parts.1 then ok changes else add changes (parts.1 ∷ []))
  truncate_decimal_loop cs whole' changes'

unfoldable pub truncate_decimal : DecCoins → Result (List CoinSet.Coin × DecCoins)
truncate_decimal coins = truncate_decimal_loop coins [] []

-- `NewDecCoinsFromCoins`: the result has one cell for each coin given, and the cells behind the
-- converted set keep Go's zero value, a coin with no denomination and a nil amount (`none`).
unfoldable pub convert_loop : List CoinSet.Coin → Result (List (Option DecCoin))
convert_loop [] = ok []
convert_loop (c ∷ cs) = do
  coin ← new_dec_coin_from_coin c
  rest ← convert_loop cs
  ok (some coin ∷ rest)

unfoldable pub new_dec_coins_from_coins : List CoinSet.Coin → Result (List (Option DecCoin))
new_dec_coins_from_coins coins = do
  new_coins ← CoinSet.new_coins coins
  converted ← convert_loop new_coins
  ok (converted ++ replicate (length coins - length new_coins) none)

-- The code that types/dec_coin.go repeats from types/coin.go for its own types.
unfoldable pub new_dec_coins : List DecCoin → Result DecCoins
unfolding CoinSet.new_coins
new_dec_coins coins = CoinSet.new_coins coins

unfoldable pub remove_zero_dec_coins : DecCoins → DecCoins
unfolding remove_zero_coins
remove_zero_dec_coins coins = remove_zero_coins coins

unfoldable pub amount_of_dec : DecCoins → Denom → Result Decimal
unfolding CoinSet.amount_of
amount_of_dec coins denom = CoinSet.amount_of coins denom

-- `DecCoins.IsValid`
unfoldable pub is_valid_dec_coins : DecCoins → Bool
unfolding CoinSet.is_valid
is_valid_dec_coins coins = CoinSet.is_valid coins

-- `DecCoin.IsEqual` and `DecCoins.IsEqual`
unfoldable pub is_equal_dec_coin : DecCoin → DecCoin → Result Bool
unfolding Coin.is_equal_coin
is_equal_dec_coin a b = Coin.is_equal_coin a b

unfoldable pub is_equal_dec_coins : DecCoins → DecCoins → Result Bool
unfolding CoinSet.is_equal
is_equal_dec_coins coins coins_b = CoinSet.is_equal coins coins_b

-- `DecCoins.IsZero` and `DecCoins.IsAllPositive`
unfoldable pub is_zero_dec_coins : DecCoins → Bool
is_zero_dec_coins coins = all_coins is_zero coins

unfoldable pub is_all_positive_dec_coins : DecCoins → Bool
unfolding Coin.is_all_positive
is_all_positive_dec_coins coins = Coin.is_all_positive coins

-- `DecCoins.Sort`
unfoldable pub sort_dec_coins : DecCoins → DecCoins
unfolding CoinSet.sort
sort_dec_coins coins = CoinSet.sort coins
