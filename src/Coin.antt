-- ===== src/Coin.antt =====
-- types/coin.go: a coin of an integer amount, and sets of coins, by the shared code of `CoinSet`
-- over the addition of types/int.go.
pub mod Sums
pub mod Validate
use plugchain_sdk_go.Prelude.{
  ℕ, Bool, true, false, not, ◌&&◌, ◌||◌, ◌≡◌, if◌then◌else◌, List, [], ◌∷◌, length, ◌==◌, Result,
  ok, err, panic, ◌>>=◌, ◌>>◌, panic_if, err_if, must, negative_amount, denom_mismatch,
  negative_coin_amount, duplicate_denom, not_sorted, not_positive,
}
use plugchain_sdk_go.Prelude.Integer.{ℤ, pos, is_neg, eqb_ℤ}
use plugchain_sdk_go.Denom.{Denom, denom_eq, denom_lt, validate_denom}
use plugchain_sdk_go.Int
use plugchain_sdk_go.CoinSet
use plugchain_sdk_go.CoinSet.{Coin, is_zero, is_negative, is_positive, all_coins}

-- `validate`
unfoldable pub validate : Denom → ℤ → Result (Unit {0})
unfolding validate_denom Int.is_negative
validate denom amount = do validate_denom denom; err_if (Int.is_negative amount) negative_amount

unfoldable pub new_coin : Denom → ℤ → Result Coin
unfolding validate
new_coin denom amount = do
  must (validate denom amount)
  ok (record { denom = denom; amount = amount })

-- `Coin.IsValid`
unfoldable pub is_valid_coin : Coin → Bool
unfolding validate
is_valid_coin c = elim (validate c.denom c.amount) [ ok _ ↦ true | _ ↦ false ]

-- `Coin.Add`
abbrev pub add_coin : Coin → Coin → Result Coin
add_coin = CoinSet.add_coin Int.add

-- `Coin.Sub`
unfoldable pub sub_coin : Coin → Coin → Result Coin
sub_coin a b = do
  panic_if (not (denom_eq a.denom b.denom)) denom_mismatch
  res ← Int.sub a.amount b.amount
  panic_if (is_neg res) negative_coin_amount
  ok (record { denom = a.denom; amount = res })

-- `Coin.IsEqual`
unfoldable pub is_equal_coin : Coin → Coin → Result Bool
is_equal_coin a b = do
  panic_if (not (denom_eq a.denom b.denom)) denom_mismatch
  ok (eqb_ℤ a.amount b.amount)

abbrev pub Coins : Type 0
Coins = List Coin

unfoldable pub is_any_negative : Coins → Bool
is_any_negative [] = false
is_any_negative (c ∷ cs) = is_negative c || is_any_negative cs

-- `Coins.IsZero`
unfoldable pub is_zero_coins : Coins → Bool
is_zero_coins cs = all_coins is_zero cs

unfoldable pub is_all_positive : Coins → Bool
is_all_positive [] = false
is_all_positive (c ∷ cs) = all_coins is_positive (c ∷ cs)

-- `Coins.Add`
abbrev pub add : Coins → Coins → Result Coins
add = CoinSet.safe_add Int.add

abbrev seen : Denom → List Denom → Bool
seen d [] = false
seen d (e ∷ es) = denom_eq e d || seen d es

-- The loop of `Coins.Validate`, with `lowDenom` and the keys of `seenDenoms`.
validate_loop : Denom → List Denom → Coins → Result (Unit {0})
validate_loop low denoms [] = ok tt
validate_loop low denoms (c ∷ cs) = do
  err_if (seen c.denom denoms) duplicate_denom
  validate_denom c.denom
  err_if (not (denom_lt low c.denom)) not_sorted
  err_if (not (is_positive c)) not_positive
  validate_loop c.denom (c.denom ∷ denoms) cs

unfoldable pub validate_coins : Coins → Result (Unit {0})
unfolding validate_loop
validate_coins [] = ok tt
validate_coins (c ∷ cs) = do
  validate_denom c.denom
  err_if (not (is_positive c)) not_positive
  validate_loop c.denom (c.denom ∷ []) cs
