-- ===== src/Tests/Texts.antt =====
-- Sets of coins written as text and parsed again, and amounts that are parsed unlike they look.
use plugchain_sdk_go.Prelude.{◌≡◌, refl, [], ◌∷◌, ok, err, invalid_coin_amount}
use plugchain_sdk_go.Prelude.Integer.{pos}
use plugchain_sdk_go.Prelude.BitLen.{bit_len}
use plugchain_sdk_go.Denom.{matches_denom, compare_denom}
use plugchain_sdk_go.CoinSet.{Coin}
use plugchain_sdk_go.CoinText.{
  parse_coin, parse_coins, coins_string, parse_dec_coins, dec_coins_string,
}
use plugchain_sdk_go.CoinText.RoundTrip.{parse_coins-coins_string, parse_dec_coins-dec_coins_string}

abbrev atom : Coin
atom = record { denom = b'a' ∷ b't' ∷ b'o' ∷ b'm' ∷ []; amount = pos 5 }

abbrev plug : Coin
plug = record { denom = b'p' ∷ b'l' ∷ b'u' ∷ b'g' ∷ []; amount = pos 12 }

parse_coins-coins_string_example :
    parse_coins (coins_string (atom ∷ plug ∷ [])) ≡ ok (atom ∷ plug ∷ [])
unfolding matches_denom compare_denom bit_len
parse_coins-coins_string_example =
    parse_coins-coins_string (atom ∷ plug ∷ []) ((refl, tt), (tt, tt))
      ((refl, refl, refl), ((refl, refl, refl), tt)) (refl, (refl, tt))

parse_dec_coins-dec_coins_string_example :
    parse_dec_coins (dec_coins_string (atom ∷ plug ∷ [])) ≡ ok (atom ∷ plug ∷ [])
unfolding matches_denom compare_denom
parse_dec_coins-dec_coins_string_example =
    parse_dec_coins-dec_coins_string (atom ∷ plug ∷ []) ((refl, tt), (tt, tt))
      ((refl, refl, refl), ((refl, refl, refl), tt))

-- "0100plug" is read in base 8, as 64.
octal_amount :
    parse_coin (b'0' ∷ b'1' ∷ b'0' ∷ b'0' ∷ b'p' ∷ b'l' ∷ b'u' ∷ b'g' ∷ [])
    ≡ ok (record { denom = plug.denom; amount = pos 64 })
unfolding parse_coin bit_len
octal_amount = refl

-- "09plug" is refused.
no_octal_digit : parse_coin (b'0' ∷ b'9' ∷ b'p' ∷ b'l' ∷ b'u' ∷ b'g' ∷ []) ≡ err invalid_coin_amount
unfolding parse_coin
no_octal_digit = refl
