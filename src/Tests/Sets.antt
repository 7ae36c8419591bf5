-- ===== src/Tests/Sets.antt =====
-- Runs of types/coin.go and types/dec_coin.go.
use plugchain_sdk_go.Prelude.{
  ℕ, ◌≡◌, ◌⊎◌, ◌↔◌, ◌*◌, ◌^◌, refl, arith, true, false, [], ◌∷◌, All, ok, panic,
  negative_coin_amount,
}
use plugchain_sdk_go.Prelude.Integer
use plugchain_sdk_go.Prelude.Integer.{ℤ, pos, negsuc, ◌+ℤ◌, ◌*ℤ◌, ◌-ℤ◌, ◌≤ℤ◌, ◌<ℤ◌, mag}
use plugchain_sdk_go.Denom.{Denom, matches_denom, compare_denom, must_validate_denom}
use plugchain_sdk_go.Int
use plugchain_sdk_go.Dec
use plugchain_sdk_go.Dec.{chop_precision_and_round}
use plugchain_sdk_go.Prelude.BitLen.{bit_len}
use plugchain_sdk_go.CoinSet
use plugchain_sdk_go.CoinSet.{
  Coin, is_zero, is_valid, remove_zero_coins, backing_after_remove, amount_of, new_coins, sort,
}
use plugchain_sdk_go.CoinSet.Zeros.{nonzero, remove_zero_coins_lem}
use plugchain_sdk_go.CoinSet.Total.{total}
use plugchain_sdk_go.CoinSet.Sorted.{IsSorted}
use plugchain_sdk_go.CoinSet.Find.{amount_of_lem}
use plugchain_sdk_go.CoinSet.Valid.{AllPositive, Proper, new_coins_sound}
use plugchain_sdk_go.Coin.{Coins, add, validate_coins}
use plugchain_sdk_go.Coin.Sums.{amount_of-add, is_valid-add, add_returns}
use plugchain_sdk_go.Coin.Validate.{AllMatch, validate_coins_iff}
use plugchain_sdk_go.DecCoin
use plugchain_sdk_go.DecCoin.{DecCoins, safe_sub, sub, mul_dec, truncate_decimal_coin}
use plugchain_sdk_go.DecCoin.Sums.{sub_lem}

abbrev atom : Denom
atom = b'a' ∷ b't' ∷ b'o' ∷ b'm' ∷ []

abbrev plug : Denom
plug = b'p' ∷ b'l' ∷ b'u' ∷ b'g' ∷ []

-- A denomination with an upper case letter, and one that is too short for the pattern.
abbrev upper : Denom
upper = b's' ∷ b'w' ∷ b'A' ∷ b'p' ∷ []

abbrev short : Denom
short = b'z' ∷ []

abbrev coin : Denom → ℕ → Coin
coin d n = record { denom = d; amount = pos n }

abbrev purse : Coins
purse = coin atom 3 ∷ coin plug 5 ∷ []

abbrev pay : Coins
pay = coin plug 4 ∷ []

abbrev both : Coins
both = coin atom 3 ∷ coin plug 9 ∷ []

abbrev left : Coins
left = coin atom 3 ∷ coin plug 1 ∷ []

IsSorted-purse : IsSorted purse
unfolding compare_denom
IsSorted-purse = ((refl, tt), (tt, tt))

Proper-purse : All Proper purse
unfolding matches_denom compare_denom
Proper-purse = ((refl, refl, refl), ((refl, refl, refl), tt))

Proper-pay : All Proper pay
unfolding matches_denom compare_denom
Proper-pay = ((refl, refl, refl), tt)

matches_plug : matches_denom plug ≡ true
unfolding matches_denom
matches_plug = refl

add-both : add purse pay ≡ ok both
unfolding CoinSet.safe_add_loop CoinSet.safe_add compare_denom CoinSet.add_coin Int.add bit_len ◌+ℤ◌
    CoinSet.remove_zero_loop remove_zero_coins
add-both = refl

amount_of-add_example : amount_of both plug ≡ ok (pos 5 +ℤ pos 4)
unfolding amount_of CoinSet.amount_of_rounds compare_denom matches_denom must_validate_denom
amount_of-add_example =
    amount_of-add purse pay both plug (pos 5) (pos 4) IsSorted-purse (tt, tt) matches_plug add-both
      refl refl

is_valid-add_example : (is_valid both ≡ true) × IsSorted both × All Proper both
is_valid-add_example =
    is_valid-add purse pay both IsSorted-purse (tt, tt) Proper-purse Proper-pay add-both

add_returns_example :
    (r : Coins) × (add purse pay ≡ ok r)
    × All (λ c. is_zero c ≡ false) r
    × ((d : Denom) → total d r ≡ total d purse +ℤ total d pay)
add_returns_example = add_returns purse pay (omega arith, (omega arith, tt)) (omega arith, tt)

amount_of_example : amount_of purse plug ≡ ok (total plug purse)
amount_of_example = amount_of_lem plug matches_plug purse IsSorted-purse

remove_zero_coins_example :
    remove_zero_coins (coin atom 0 ∷ coin plug 5 ∷ []) ≡ nonzero (coin atom 0 ∷ coin plug 5 ∷ [])
remove_zero_coins_example = remove_zero_coins_lem (coin atom 0 ∷ coin plug 5 ∷ [])

new_coins-purse : new_coins (coin plug 5 ∷ coin atom 3 ∷ []) ≡ ok purse
unfolding new_coins remove_zero_coins CoinSet.remove_zero_loop sort CoinSet.find_dup is_valid
    compare_denom matches_denom
new_coins-purse = refl

new_coins_sound_example :
    (is_valid purse ≡ true)
    × IsSorted purse
    × AllPositive purse
    × ((d : Denom) → total d purse ≡ total d (coin plug 5 ∷ coin atom 3 ∷ []))
new_coins_sound_example = new_coins_sound (coin plug 5 ∷ coin atom 3 ∷ []) purse new_coins-purse

validate_coins_iff_example :
    (validate_coins purse ≡ ok tt) ↔ (IsSorted purse × AllPositive purse × AllMatch purse)
validate_coins_iff_example = validate_coins_iff purse

sub_purse : safe_sub purse pay ≡ ok (left, false)
unfolding safe_sub CoinSet.safe_add_loop Dec.add Dec.checked DecCoin.is_any_negative ◌+ℤ◌
    Integer.neg CoinSet.safe_add compare_denom CoinSet.add_coin bit_len
sub_purse = refl

sub_lem_example :
    ((r : DecCoins) × (sub purse pay ≡ ok r)
      × IsSorted r
      × ((d : Denom) → total d r ≡ total d purse -ℤ total d pay)
      × ¬ ((d : Denom) × (total d purse <ℤ total d pay)))
    ⊎ ((sub purse pay ≡ panic negative_coin_amount)
        × ((d : Denom) × (total d purse <ℤ total d pay)))
sub_lem_example =
    sub_lem purse pay IsSorted-purse (tt, tt) (omega arith, (omega arith, tt)) (omega arith, tt)

doubled : mul_dec purse (pos (2 * 10 ^ 18)) ≡ ok (coin atom 6 ∷ coin plug 10 ∷ [])
unfolding mul_dec DecCoin.scale_loop CoinSet.safe_add_loop CoinSet.safe_add compare_denom
    CoinSet.add_coin Dec.mul Dec.add Dec.checked bit_len ◌*ℤ◌ ◌+ℤ◌ chop_precision_and_round
    Dec.round_half_even remove_zero_coins CoinSet.remove_zero_loop
doubled = refl
