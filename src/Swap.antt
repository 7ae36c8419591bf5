-- ===== src/Swap.antt =====
-- modules/coinswap/coinswap.go and types/utils.go: the prices of a constant-product pool, the fee
-- of an offer, and the names of the liquidity denominations.
pub mod Price
pub mod Messages
pub mod Calls
use plugchain_sdk_go.Prelude.{
  ℕ, ◌≡◌, Bool, true, false, ◌&&◌, ◌==◌, if◌then◌else◌, List, [], ◌∷◌, ◌++◌, Result, ok, err, panic,
  ◌>>=◌, ◌>>◌, base_denom, wrong_liquidity_denom,
}
use plugchain_sdk_go.Prelude.Integer.{ℤ, pos}
use plugchain_sdk_go.Denom.{Denom, denom_eq}
use plugchain_sdk_go.Int
use plugchain_sdk_go.Dec
use plugchain_sdk_go.Dec.{Decimal}
use plugchain_sdk_go.CoinSet.{Coin}
use plugchain_sdk_go.Coin

-- `OneDec().Sub(fee)`, and its underlying integer as an `Int`.
unfoldable pub delta_fee : Decimal → Result ℤ
delta_fee fee = do delta ← Dec.sub Dec.one_dec fee; Int.new_int_from_big_int delta

unfoldable pub get_input_price : ℤ → ℤ → ℤ → Decimal → Result ℤ
get_input_price input_amt input_reserve output_reserve fee = do
  delta ← delta_fee fee
  input_amt_with_fee ← Int.mul input_amt delta
  numerator ← Int.mul input_amt_with_fee output_reserve
  one ← Int.new_int_with_decimal (pos 1) (pos Dec.precision)
  scaled ← Int.mul input_reserve one
  denominator ← Int.add scaled input_amt_with_fee
  Int.quo numerator denominator

unfoldable pub get_output_price : ℤ → ℤ → ℤ → Decimal → Result ℤ
get_output_price output_amt input_reserve output_reserve fee = do
  delta ← Dec.sub Dec.one_dec fee
  product ← Int.mul input_reserve output_amt
  one ← Int.new_int_with_decimal (pos 1) (pos Dec.precision)
  numerator ← Int.mul product one
  left ← Int.sub output_reserve output_amt
  factor ← Int.new_int_from_big_int delta
  denominator ← Int.mul left factor
  price ← Int.quo numerator denominator
  Int.add price Int.one_int

-- `GetOfferCoinFee`: half of the fee rate of the offer, rounded down.
unfoldable pub get_offer_coin_fee : Coin → Decimal → Result Coin
get_offer_coin_fee offer_coin swap_fee_rate = do
  half ← Dec.quo_int64 swap_fee_rate (pos 2)
  fee ← Dec.mul (Dec.new_dec_from_int offer_coin.amount) half
  whole ← Dec.truncate_int fee
  Coin.new_coin offer_coin.denom whole

-- "plug" and "swap".
abbrev pub base_denom_name : Denom
base_denom_name = b'p' ∷ b'l' ∷ b'u' ∷ b'g' ∷ []

abbrev pub swap_prefix : Denom
swap_prefix = b's' ∷ b'w' ∷ b'a' ∷ b'p' ∷ []

unfoldable pub get_liquidity_denom_from : Denom → Result Denom
get_liquidity_denom_from denom =
    if denom_eq denom base_denom_name then err base_denom else ok (swap_prefix ++ denom)

-- `strings.HasPrefix` and `strings.TrimPrefix` together: what stands behind the prefix.
abbrev pub after_prefix : List ℕ → List ℕ → Result (List ℕ)
after_prefix [] s = ok s
after_prefix (p ∷ ps) [] = err wrong_liquidity_denom
after_prefix (p ∷ ps) (c ∷ cs) = if c == p then after_prefix ps cs else err wrong_liquidity_denom

unfoldable pub get_token_denom_from : Denom → Result Denom
get_token_denom_from liquidity_denom = after_prefix swap_prefix liquidity_denom
