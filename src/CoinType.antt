-- ===== src/CoinType.antt =====
-- types/coin_type.go and types/token.go: the two units of a token, and the conversion of amounts
-- between them.
pub mod RoundTrip
use plugchain_sdk_go.Prelude.{
  ℕ, ◌+◌, ◌%◌, ◌^◌, ◌≡◌, Bool, true, false, ◌&&◌, ◌||◌, leb, ◌==◌, if◌then◌else◌, List, [], ◌∷◌,
  ◌++◌, Option, none, some, Result, ok, err, panic, ◌>>=◌, ◌>>◌,
}
use mathlib.Core.List.{reverse}
use plugchain_sdk_go.Prelude.Integer.{ℤ, pos}
use plugchain_sdk_go.Denom.{Denom, denom_eq}
use plugchain_sdk_go.Int
use plugchain_sdk_go.Dec
use plugchain_sdk_go.Dec.{Decimal}
use plugchain_sdk_go.CoinSet.{Coin}
use plugchain_sdk_go.Coin
use plugchain_sdk_go.DecCoin
use plugchain_sdk_go.DecCoin.{DecCoin}

-- `Unit`; its scale is a uint8.
pub record CoinUnit : Type 0 where
  pub denom : Denom
  pub scale : ℕ

unfoldable pub get_scale_factor : CoinUnit → Result ℤ
unfolding Int.new_int_with_decimal
get_scale_factor u = Int.new_int_with_decimal (pos 1) (pos u.scale)

-- The description and the name play no part in the conversions.
pub record CoinType : Type 0 where
  pub name : List ℕ
  pub min_unit : CoinUnit
  pub main_unit : CoinUnit
  pub desc : List ℕ

pub record Token : Type 0 where
  pub symbol : Denom
  pub name : List ℕ
  pub scale : ℕ
  pub min_unit : Denom

-- `uint8(t.Scale)` keeps the low eight bits of the scale.
unfoldable pub get_coin_type : Token → CoinType
get_coin_type t = record {
  name = t.name;
  min_unit = record { denom = t.min_unit; scale = t.scale % 2 ^ 8 };
  main_unit = record { denom = t.symbol; scale = 0 };
  desc = t.name;
}

-- `strings.TrimSpace`, for the ASCII white space.
abbrev pub is_space : ℕ → Bool
is_space c = leb 9 c && leb c 13 || c == 32

abbrev pub trim_left : List ℕ → List ℕ
trim_left [] = []
trim_left (c ∷ cs) = if is_space c then trim_left cs else c ∷ cs

unfoldable pub trim_space : List ℕ → List ℕ
trim_space s = reverse (trim_left (reverse (trim_left s)))

unfoldable pub is_main_unit : CoinType → Denom → Bool
is_main_unit ct name = denom_eq ct.main_unit.denom (trim_space name)

unfoldable pub is_min_unit : CoinType → Denom → Bool
is_min_unit ct name = denom_eq ct.min_unit.denom (trim_space name)

unfoldable pub has_unit : CoinType → Denom → Bool
unfolding is_main_unit is_min_unit
has_unit ct name = is_main_unit ct name || is_min_unit ct name

-- The scale factors of two units as decimals, and `amount * 10^dst / 10^src`.
unfoldable pub rescale : CoinUnit → CoinUnit → Decimal → Result Decimal
rescale dst src amount = do
  dst_scale ← get_scale_factor dst
  src_scale ← get_scale_factor src
  scaled ← Dec.mul amount (Dec.new_dec_from_int dst_scale)
  Dec.quo scaled (Dec.new_dec_from_int src_scale)

-- `ConvertToMainCoin`; `none` is the zero value `DecCoin{}` that a coin of the main unit gives.
unfoldable pub convert_to_main_coin : CoinType → Coin → Result (Option DecCoin)
unfolding has_unit is_main_unit
convert_to_main_coin ct coin =
    if has_unit ct coin.denom
    then (if is_main_unit ct coin.denom
        then ok none
        else (rescale ct.main_unit ct.min_unit (Dec.new_dec_from_int coin.amount) >>= λ amt.
            DecCoin.new_dec_coin_from_dec ct.main_unit.denom amt >>= λ converted.
            ok (some converted)))
    else ok (some (record { denom = coin.denom; amount = Dec.new_dec_from_int coin.amount }))

unfoldable pub convert_to_min_coin : CoinType → DecCoin → Result Coin
unfolding has_unit is_min_unit
convert_to_min_coin ct coin =
    if has_unit ct coin.denom
    then (if is_min_unit ct coin.denom
        then (DecCoin.truncate_decimal_coin coin >>= λ parts. ok parts.0)
        else (rescale ct.min_unit ct.main_unit coin.amount >>= λ amt.
            Dec.round_int amt >>= λ whole. Coin.new_coin ct.min_unit.denom whole))
    else (Dec.truncate_int coin.amount >>= λ whole.
        ok (record { denom = coin.denom; amount = whole }))
