-- ===== src/Client/Factory.antt =====
-- client/tx/factory.go: the transaction that a factory's fields describe, and its signature.
use plugchain_sdk_go.Prelude.{
  ℕ, ◌-◌, ◌^◌, Bool, false, not, ltb, ◌==◌, if◌then◌else◌, List, [], ◌∷◌, length, Result, ok,
  err_if, ◌>>=◌, ◌>>◌, missing_chain_id, fees_and_gas_prices,
}
use plugchain_sdk_go.Prelude.Integer.{ℤ, pos, negsuc}
use plugchain_sdk_go.CoinSet.{Coin}
use plugchain_sdk_go.Dec
use plugchain_sdk_go.Dec.{Decimal}
use plugchain_sdk_go.Coin
use plugchain_sdk_go.DecCoin
use plugchain_sdk_go.DecCoin.{DecCoin, DecCoins}
use plugchain_sdk_go.Client.{TxBuilder, Services}

-- The fields of `Factory` that are data; the services behind the others are parameters.
pub record Factory : Type 0 where
  pub address : List ℕ
  pub chain_id : List ℕ
  pub memo : List ℕ
  pub password : List ℕ
  pub account_number : ℕ
  pub sequence : ℕ
  pub gas : ℕ
  pub simulate_and_execute : Bool
  pub fees : List Coin
  pub gas_prices : DecCoins
  pub mode : List ℕ
  pub sign_mode : ℕ

unfoldable pub new_factory : Factory
new_factory = record {
  address = [];
  chain_id = [];
  memo = [];
  password = [];
  account_number = 0;
  sequence = 0;
  gas = 0;
  simulate_and_execute = false;
  fees = [];
  gas_prices = [];
  mode = [];
  sign_mode = 0;
}

-- The conversion of a uint64 to an int64.
unfoldable pub to_int64 : ℕ → ℤ
to_int64 n = if ltb n (2 ^ 63) then pos n else negsuc (2 ^ 64 - n - 1)

-- fee = ceil(gasPrice * gasLimit), for each gas price.
unfoldable pub fees_of : DecCoins → Decimal → Result (List Coin)
fees_of [] gl_dec = ok []
fees_of (gp ∷ gps) gl_dec = do
  fee ← Dec.mul gp.amount gl_dec
  amount ← Dec.round_int (Dec.ceil fee)
  coin ← Coin.new_coin gp.denom amount
  rest ← fees_of gps gl_dec
  ok (coin ∷ rest)

-- The fees, which gas prices exclude.
unfoldable pub derived_fees : Factory → Result (List Coin)
unfolding fees_of to_int64 Coin.is_zero_coins DecCoin.is_zero_dec_coins Dec.new_dec
derived_fees f =
    if DecCoin.is_zero_dec_coins f.gas_prices
    then ok f.fees
    else err_if (not (Coin.is_zero_coins f.fees)) fees_and_gas_prices
      >> (Dec.new_dec (to_int64 f.gas) >>= λ gl_dec. fees_of f.gas_prices gl_dec)

module _ {W Msg : Type 0} (node : Services W Msg) where
  -- `TxBuilder.SetMsgs` packs each message.
  unfoldable pub pack_msgs : List Msg → Result (Unit {0})
  pack_msgs [] = ok tt
  pack_msgs (msg ∷ msgs) = node.new_any_with_value msg >> pack_msgs msgs

  unfoldable pub build_unsigned_tx : Factory → List Msg → Result (TxBuilder Msg)
  unfolding derived_fees pack_msgs
  build_unsigned_tx f msgs = do
    err_if (length f.chain_id == 0) missing_chain_id
    fees ← derived_fees f
    pack_msgs msgs
    ok (record {
      msgs = msgs;
      memo = f.memo;
      fee_amount = fees;
      gas_limit = f.gas;
      signatures = [];
    })
