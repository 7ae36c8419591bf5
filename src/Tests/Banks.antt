-- ===== src/Tests/Banks.antt =====
-- Runs of modules/bank and of the messages of modules/coinswap, and the sums of coins in either order.
use plugchain_sdk_go.Prelude.{
  ℕ, ◌^◌, ◌≡◌, ◌<◌, refl, Bool, false, Split, List, [], ◌∷◌, Result, ok, panic, index_out_of_range,
}
use plugchain_sdk_go.Prelude.Integer.{pos, ◌+ℤ◌}
use plugchain_sdk_go.Denom.{Denom, matches_denom, compare_denom}
use plugchain_sdk_go.Int
use plugchain_sdk_go.CoinSet.{
  Coin, is_valid, is_equal, safe_add, safe_add_loop, remove_zero_coins, add_coin, sort,
}
use plugchain_sdk_go.Prelude.BitLen.{bit_len}
use plugchain_sdk_go.CoinSet.Sorted.{IsSorted}
use plugchain_sdk_go.DecCoin.{DecCoins}
use plugchain_sdk_go.Coin
use plugchain_sdk_go.Coin.{Coins, validate_coins}
use plugchain_sdk_go.Client.{Services}
use plugchain_sdk_go.Client.Returns.{Returns}
use plugchain_sdk_go.Bank.{
  MsgMultiSend, BankMsg, check_coins, validate_input, validate_output, total_in, total_out,
  validate_inputs_outputs, validate_multi_send,
}
use plugchain_sdk_go.Bank.Balance.{inputs_total, outputs_total, validate_multi_send-total}
use plugchain_sdk_go.Bank.Sends.{Receipt, multi_send_msg}
use plugchain_sdk_go.Bank.Sends.Built.{IsBalanced, multi_send_msg-IsBalanced}
use plugchain_sdk_go.Swap.Messages.{MsgCreatePool, validate_create_pool, validate_create_pool_lem}
use plugchain_sdk_go.Tests.Node.{World, node_with, config_with}

abbrev atom : Denom
atom = b'a' ∷ b't' ∷ b'o' ∷ b'm' ∷ []

abbrev coins : ℕ → Coins
coins n = record { denom = atom; amount = pos n } ∷ []

abbrev any_address : List ℕ → Result (List ℕ)
any_address a = ok a

-- Five coins from one account to two others.
abbrev split_five : MsgMultiSend
split_five = record {
  inputs = record { address = b'a' ∷ []; coins = coins 5 } ∷ [];
  outputs =
      record { address = b'b' ∷ []; coins = coins 2 }
      ∷ record { address = b'c' ∷ []; coins = coins 3 }
      ∷ [];
}

split_five-valid : validate_multi_send any_address split_five ≡ ok tt
unfolding validate_multi_send validate_inputs_outputs total_in total_out validate_input
    validate_output check_coins is_valid is_equal sort Coin.is_all_positive safe_add safe_add_loop
    remove_zero_coins add_coin Int.add bit_len ◌+ℤ◌ matches_denom compare_denom
split_five-valid = refl

validate_multi_send-total_example :
    inputs_total atom split_five.inputs ≡ outputs_total atom split_five.outputs
validate_multi_send-total_example =
    validate_multi_send-total any_address atom split_five split_five-valid

abbrev bank_node : Services World BankMsg
bank_node = node_with (ok (b'p' ∷ [], b'a' ∷ []))

abbrev one_atom : DecCoins
one_atom = record { denom = atom; amount = pos (10 ^ 18) } ∷ []

abbrev receipts : List Receipt
receipts =
    record { address = b'b' ∷ []; amount = one_atom }
    ∷ record { address = b'c' ∷ []; amount = one_atom }
    ∷ []

multi_send_msg-IsBalanced_example :
    Returns (IsBalanced 2) (multi_send_msg bank_node (config_with false) (b'a' ∷ []) receipts [])
multi_send_msg-IsBalanced_example =
    multi_send_msg-IsBalanced bank_node (config_with false) (b'a' ∷ []) receipts []

abbrev lone_pool : MsgCreatePool
lone_pool = record { pool_creator_address = b'a' ∷ []; pool_type_id = 1; deposit_coins = coins 5 }

abbrev no_sharing : Coin → Coin → Bool
no_sharing a b = false

lone_pool-valid : validate_coins lone_pool.deposit_coins ≡ ok tt
unfolding validate_coins matches_denom compare_denom Coin.validate
lone_pool-valid = refl

validate_create_pool_lem_example :
    Split
      (1 < 2)
      (validate_create_pool any_address no_sharing lone_pool ≡ panic index_out_of_range)
      (validate_create_pool any_address no_sharing lone_pool ≡ ok tt)
validate_create_pool_lem_example =
    validate_create_pool_lem any_address no_sharing lone_pool lone_pool-valid

abbrev two_kinds : Coins
two_kinds =
    record { denom = atom; amount = pos 3 } ∷ record { denom = b'p' ∷ []; amount = pos 4 } ∷ []

abbrev swapped : Coins
swapped =
    record { denom = b'p' ∷ []; amount = pos 4 } ∷ record { denom = atom; amount = pos 3 } ∷ []

two_kinds-IsSorted : IsSorted two_kinds
unfolding compare_denom
two_kinds-IsSorted = ((refl, tt), (tt, tt))

swapped-IsSorted : IsSorted (sort swapped)
unfolding compare_denom sort
swapped-IsSorted = ((refl, tt), (tt, tt))
