-- ===== src/Bank.antt =====
-- modules/bank/types.go and modules/bank/bank.go: the messages that send coins, and the calls of the
-- bank client that build them.
pub mod Balance
pub mod Sends
use plugchain_sdk_go.Prelude.{
  ℕ, Bool, true, false, not, ltb, ◌==◌, if◌then◌else◌, List, [], ◌∷◌, length, Option, none, some,
  Result, ok, err, panic, Error, ◌>>=◌, ◌>>◌, err_if, empty_coins, empty_inputs, empty_outputs,
  unbalanced, invalid_coin_set,
}
use plugchain_sdk_go.CoinSet.{Coin, is_valid, is_equal}
use plugchain_sdk_go.Coin
use plugchain_sdk_go.Coin.{Coins}

pub record Input : Type 0 where
  pub address : List ℕ
  pub coins : Coins

pub record Output : Type 0 where
  pub address : List ℕ
  pub coins : Coins

pub record MsgSend : Type 0 where
  pub from_address : List ℕ
  pub to_address : List ℕ
  pub amount : Coins

pub record MsgMultiSend : Type 0 where
  pub inputs : List Input
  pub outputs : List Output

pub data BankMsg : Type 0 where
  send : MsgSend → BankMsg
  multi_send : MsgMultiSend → BankMsg

-- The tests on the coins that the messages share: `IsValid` and `IsAllPositive`.
unfoldable pub check_coins : Coins → Result (Unit {0})
unfolding Coin.is_all_positive is_valid
check_coins coins = do
  err_if (not (is_valid coins)) invalid_coin_set
  err_if (not (Coin.is_all_positive coins)) invalid_coin_set

-- `AccAddressFromBech32` is a parameter.
module _ (parse_address : List ℕ → Result (List ℕ)) where
  -- `MsgSend.ValidateBasic`
  unfoldable pub validate_send : MsgSend → Result (Unit {0})
  unfolding check_coins
  validate_send msg = parse_address msg.from_address >>= λ from_.
      parse_address msg.to_address >>= λ to. check_coins msg.amount

  -- `Input.ValidateBasic` and `Output.ValidateBasic`
  unfoldable pub validate_input : Input → Result (Unit {0})
  unfolding check_coins
  validate_input input = parse_address input.address >>= λ addr.
      err_if (length input.coins == 0) empty_coins >> check_coins input.coins

  unfoldable pub validate_output : Output → Result (Unit {0})
  unfolding check_coins
  validate_output output = parse_address output.address >>= λ addr.
      err_if (length output.coins == 0) empty_coins >> check_coins output.coins

  -- The two loops, with the total so far.
  unfoldable pub total_in : List Input → Coins → Result Coins
  unfolding validate_input
  total_in [] sum = ok sum
  total_in (input ∷ inputs) sum =
      validate_input input >> (Coin.add sum input.coins >>= λ next. total_in inputs next)

  unfoldable pub total_out : List Output → Coins → Result Coins
  unfolding validate_output
  total_out [] sum = ok sum
  total_out (output ∷ outputs) sum =
      validate_output output >> (Coin.add sum output.coins >>= λ next. total_out outputs next)

  -- `ValidateInputsOutputs`
  unfoldable pub validate_inputs_outputs : List Input → List Output → Result (Unit {0})
  unfolding total_in total_out is_equal
  validate_inputs_outputs inputs outputs = do
    sum_in ← total_in inputs []
    sum_out ← total_out outputs []
    same ← is_equal sum_in sum_out
    err_if (not same) unbalanced

  -- `MsgMultiSend.ValidateBasic`
  unfoldable pub validate_multi_send : MsgMultiSend → Result (Unit {0})
  unfolding validate_inputs_outputs
  validate_multi_send msg = do
    err_if (length msg.inputs == 0) empty_inputs
    err_if (length msg.outputs == 0) empty_outputs
    validate_inputs_outputs msg.inputs msg.outputs
