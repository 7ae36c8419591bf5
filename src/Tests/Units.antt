-- ===== src/Tests/Units.antt =====
-- Runs of the conversions of types/coin_type.go and of the prices of modules/coinswap/coinswap.go.
use plugchain_sdk_go.Prelude.{
  ℕ, ◌≡◌, ◌*◌, ◌+◌, ◌-◌, ◌^◌, ◌≤◌, ◌<◌, refl, arith, true, false, [], ◌∷◌, ok, some,
}
use plugchain_sdk_go.Prelude.Integer.{pos}
use plugchain_sdk_go.Denom.{Denom, matches_denom, compare_denom, denom_eq}
use plugchain_sdk_go.Dec
use plugchain_sdk_go.CoinType.{trim_space, convert_to_main_coin, convert_to_min_coin}
use plugchain_sdk_go.CoinType.RoundTrip.{convert_to_min_coin-convert_to_main_coin}
use plugchain_sdk_go.Swap.{get_input_price, get_output_price}
use plugchain_sdk_go.Swap.Price.{
  get_input_price_lem, get_output_price_lem, get_input_price-get_output_price,
}

abbrev plug : Denom
plug = b'p' ∷ b'l' ∷ b'u' ∷ b'g' ∷ []

abbrev uplug : Denom
uplug = b'u' ∷ plug

trimmed : (trim_space plug ≡ plug) × (trim_space uplug ≡ uplug)
unfolding trim_space
trimmed = (refl, refl)

apart : (denom_eq plug uplug ≡ false) × (denom_eq uplug plug ≡ false)
unfolding compare_denom
apart = (refl, refl)

matching : (matches_denom plug ≡ true) × (matches_denom uplug ≡ true)
unfolding matches_denom
matching = (refl, refl)

-- A fee of three thousandths.
abbrev fee : ℕ
fee = 3 * 10 ^ 15

convert_to_min_coin-convert_to_main_coin_example :
    (m : ℕ) × (convert_to_main_coin
        (record {
          name = plug;
          min_unit = record { denom = uplug; scale = 6 };
          main_unit = record { denom = plug; scale = 0 };
          desc = plug;
        })
        (record { denom = uplug; amount = pos 1234567 })
      ≡ ok (some (record { denom = plug; amount = pos m })))
    × (m * 10 ^ 6 ≡ 1234567 * Dec.precision_reuse)
    × (convert_to_min_coin
          (record {
            name = plug;
            min_unit = record { denom = uplug; scale = 6 };
            main_unit = record { denom = plug; scale = 0 };
            desc = plug;
          })
          (record { denom = plug; amount = pos m })
        ≡ ok (record { denom = uplug; amount = pos 1234567 }))
convert_to_min_coin-convert_to_main_coin_example =
    convert_to_min_coin-convert_to_main_coin plug plug plug uplug 6 1234567 (omega arith)
      (omega arith) trimmed.0 trimmed.1 apart.0 apart.1 matching.0 matching.1

get_input_price_example :
    (n : ℕ) × (get_input_price (pos 1000) (pos 50000) (pos 70000) (pos fee) ≡ ok (pos n))
    × (n ≤ 70000)
    × (50000 * 70000 ≤ (50000 + 1000) * (70000 - n))
get_input_price_example =
    get_input_price_lem 1000 50000 70000 fee (omega arith) (omega arith) (omega arith) (omega arith)
      (omega arith) (omega arith)

get_output_price_example :
    (n : ℕ) × (get_output_price (pos 1000) (pos 50000) (pos 70000) (pos fee) ≡ ok (pos n))
    × (50000 * 70000 < (50000 + n) * (70000 - 1000))
get_output_price_example =
    get_output_price_lem 1000 50000 70000 fee (omega arith) (omega arith) (omega arith)
      (omega arith) (omega arith) (omega arith) (omega arith)

get_input_price-get_output_price_example :
    (n m : ℕ) × (get_output_price (pos 1000) (pos 50000) (pos 70000) (pos fee) ≡ ok (pos n))
    × (get_input_price (pos n) (pos 50000) (pos 70000) (pos fee) ≡ ok (pos m))
    × (1000 ≤ m)
get_input_price-get_output_price_example =
    get_input_price-get_output_price 1000 50000 70000 fee (omega arith) (omega arith) (omega arith)
      (omega arith) (omega arith) (omega arith) (omega arith) (omega arith) (omega arith)
      (omega arith)
