-- ===== src/Staking.antt =====
-- modules/staking/types.go and modules/staking/staking.go: the messages that delegate coins to a
-- validator, take them back, and move them to another one, with the calls that send them.
pub mod Converted
pub mod Validators
pub mod Calls
pub mod Entries
use plugchain_sdk_go.Prelude.{
  ℕ, Bool, not, ◌&&◌, ◌==◌, List, [], ◌∷◌, length, Option, none, some, Result, ok, panic, ◌>>◌,
  err_if, missing_address, not_positive, index_out_of_range,
}
use plugchain_sdk_go.Prelude.Integer.{ℤ}
use plugchain_sdk_go.Dec.{Decimal}
use plugchain_sdk_go.CoinSet.{Coin, is_positive}
use plugchain_sdk_go.Coin
use plugchain_sdk_go.DecCoin.{DecCoin}
use plugchain_sdk_go.Client.{Io, continue, ◌>>=◌, pure, BaseTx, ClientConfig, ResultTx, Services}
use plugchain_sdk_go.Client.Cache.{query_address}
use plugchain_sdk_go.Client.Tokens.{to_min_coin}
use plugchain_sdk_go.Client.Broadcast.{build_and_send}

pub record MsgDelegate : Type 0 where
  pub delegator_address : List ℕ
  pub validator_address : List ℕ
  pub amount : Coin

pub record MsgUndelegate : Type 0 where
  pub delegator_address : List ℕ
  pub validator_address : List ℕ
  pub amount : Coin

pub record MsgBeginRedelegate : Type 0 where
  pub delegator_address : List ℕ
  pub validator_src_address : List ℕ
  pub validator_dst_address : List ℕ
  pub amount : Coin

pub record Description : Type 0 where
  pub moniker : List ℕ
  pub identity : List ℕ
  pub website : List ℕ
  pub security_contact : List ℕ
  pub details : List ℕ

-- A decimal without a number in it is `none`.
pub record CommissionRates : Type 0 where
  pub rate : Option Decimal
  pub max_rate : Option Decimal
  pub max_change_rate : Option Decimal

-- An integer without a number in it, and a nil public key, are `none`; the key is the bytes of its `Any`.
pub record MsgCreateValidator : Type 0 where
  pub description : Description
  pub commission : CommissionRates
  pub min_self_delegation : Option ℤ
  pub delegator_address : List ℕ
  pub validator_address : List ℕ
  pub pubkey : Option (List ℕ)
  pub value : Coin

-- The nil pointers to the commission rate and to the minimal delegation are `none`.
pub record MsgEditValidator : Type 0 where
  pub description : Description
  pub validator_address : List ℕ
  pub commission_rate : Option Decimal
  pub min_self_delegation : Option ℤ

pub data StakingMsg : Type 0 where
  creating : MsgCreateValidator → StakingMsg
  editing : MsgEditValidator → StakingMsg
  delegating : MsgDelegate → StakingMsg
  undelegating : MsgUndelegate → StakingMsg
  redelegating : MsgBeginRedelegate → StakingMsg

pub record DelegateRequest : Type 0 where
  pub validator_addr : List ℕ
  pub amount : DecCoin

pub record UndelegateRequest : Type 0 where
  pub validator_addr : List ℕ
  pub amount : DecCoin

pub record BeginRedelegateRequest : Type 0 where
  pub validator_src_address : List ℕ
  pub validator_dst_address : List ℕ
  pub amount : DecCoin

-- `msg.DelegatorAddress == ""` and its like.
unfoldable pub check_address : List ℕ → Result (Unit {0})
check_address a = err_if (length a == 0) missing_address

-- The test on the amount that the messages share.
unfoldable pub check_amount : Coin → Result (Unit {0})
unfolding Coin.is_valid_coin
check_amount c = err_if (not (Coin.is_valid_coin c && is_positive c)) not_positive

-- `MsgDelegate.ValidateBasic`, and those of the other two messages.
unfoldable pub validate_delegate : MsgDelegate → Result (Unit {0})
unfolding check_address check_amount
validate_delegate msg =
    check_address msg.delegator_address
    >> (check_address msg.validator_address >> check_amount msg.amount)

unfoldable pub validate_undelegate : MsgUndelegate → Result (Unit {0})
unfolding check_address check_amount
validate_undelegate msg =
    check_address msg.delegator_address
    >> (check_address msg.validator_address >> check_amount msg.amount)

unfoldable pub validate_begin_redelegate : MsgBeginRedelegate → Result (Unit {0})
unfolding check_address check_amount
validate_begin_redelegate msg =
    check_address msg.delegator_address
    >> (check_address msg.validator_src_address
        >> (check_address msg.validator_dst_address >> check_amount msg.amount))

-- `coins[0]`
abbrev pub first_coin : List Coin → Result Coin
first_coin [] = panic index_out_of_range
first_coin (c ∷ cs) = ok c

module _ {W : Type 0} (node : Services W StakingMsg) (cfg : ClientConfig) where
  -- What the three calls do first: the sender's address, and the amount in its smallest unit.
  unfoldable pub sender_and_coin : DecCoin → BaseTx → Io W (List ℕ × Coin)
  unfolding query_address to_min_coin
  sender_and_coin amount base_tx =
      query_address node cfg base_tx.from_ base_tx.password >>= λ delegator.
      to_min_coin node cfg (amount ∷ []) >>= λ coins.
      pure (first_coin coins) >>= λ coin. pure (ok (node.address_string delegator, coin))

  unfoldable pub delegate : DelegateRequest → BaseTx → Io W ResultTx
  unfolding sender_and_coin build_and_send
  delegate request base_tx = sender_and_coin request.amount base_tx >>= λ found.
      build_and_send node cfg
        (delegating (record {
          delegator_address = found.0;
          validator_address = request.validator_addr;
          amount = found.1;
        })
          ∷ [])
        base_tx

  unfoldable pub undelegate : UndelegateRequest → BaseTx → Io W ResultTx
  unfolding sender_and_coin build_and_send
  undelegate request base_tx = sender_and_coin request.amount base_tx >>= λ found.
      build_and_send node cfg
        (undelegating (record {
          delegator_address = found.0;
          validator_address = request.validator_addr;
          amount = found.1;
        })
          ∷ [])
        base_tx

  unfoldable pub begin_redelegate : BeginRedelegateRequest → BaseTx → Io W ResultTx
  unfolding sender_and_coin build_and_send
  begin_redelegate request base_tx = sender_and_coin request.amount base_tx >>= λ found.
      build_and_send node cfg
        (redelegating (record {
          delegator_address = found.0;
          validator_src_address = request.validator_src_address;
          validator_dst_address = request.validator_dst_address;
          amount = found.1;
        })
          ∷ [])
        base_tx
