-- ===== src/Swap/Calls.antt =====
-- The calls of modules/coinswap/coinswap.go that send a message, over the client's transactions.
use plugchain_sdk_go.Prelude.{ℕ, List, [], ◌∷◌}
use plugchain_sdk_go.Denom.{Denom}
use plugchain_sdk_go.Dec.Parse.{new_dec_from_str}
use plugchain_sdk_go.CoinSet.{Coin}
use plugchain_sdk_go.Client.{Io, ◌>>=◌, pure, BaseTx, ClientConfig, ResultTx, Services}
use plugchain_sdk_go.Client.Cache.{query_address}
use plugchain_sdk_go.Client.Broadcast.{build_and_send}
use plugchain_sdk_go.Swap.{get_offer_coin_fee}
use plugchain_sdk_go.Swap.Messages.{
  SwapMsg, create_pool, deposit_within_batch, swap_within_batch, withdraw_within_batch,
}

pub record AddLiquidityRequest : Type 0 where
  pub base_token : Coin
  pub token : Coin

pub record DepositWithinBatchRequest : Type 0 where
  pub pool_id : ℕ
  pub base_token : Coin
  pub token : Coin

pub record WithdrawWithinRequest : Type 0 where
  pub pool_id : ℕ
  pub pool_coin : Coin

pub record SwapCoinRequest : Type 0 where
  pub pool_id : ℕ
  pub offer_coin : Coin
  pub demand_coin_denom : Denom
  pub swap_fee_rate : List ℕ
  pub order_price : List ℕ

module _ {W : Type 0} (node : Services W SwapMsg) (cfg : ClientConfig) where
  unfoldable pub add_liquidity : AddLiquidityRequest → BaseTx → Io W ResultTx
  unfolding query_address build_and_send
  add_liquidity request base_tx =
      query_address node cfg base_tx.from_ base_tx.password >>= λ creator.
      build_and_send node cfg
        (create_pool (record {
          pool_creator_address = node.address_string creator;
          pool_type_id = 1;
          deposit_coins = request.base_token ∷ request.token ∷ [];
        })
          ∷ [])
        base_tx

  unfoldable pub deposit_coins_within_batch : DepositWithinBatchRequest → BaseTx → Io W ResultTx
  unfolding query_address build_and_send
  deposit_coins_within_batch request base_tx =
      query_address node cfg base_tx.from_ base_tx.password >>= λ creator.
      build_and_send node cfg
        (deposit_within_batch (record {
          depositor_address = node.address_string creator;
          pool_id = request.pool_id;
          deposit_coins = request.base_token ∷ request.token ∷ [];
        })
          ∷ [])
        base_tx

  unfoldable pub swap_coin : SwapCoinRequest → BaseTx → Io W ResultTx
  unfolding query_address build_and_send new_dec_from_str get_offer_coin_fee
  swap_coin request base_tx = query_address node cfg base_tx.from_ base_tx.password >>= λ creator.
      pure (new_dec_from_str request.order_price) >>= λ order_price.
      pure (new_dec_from_str request.swap_fee_rate) >>= λ swap_fee_rate.
      pure (get_offer_coin_fee request.offer_coin swap_fee_rate) >>= λ fee.
      build_and_send node cfg
        (swap_within_batch (record {
          swap_requester_address = node.address_string creator;
          pool_id = request.pool_id;
          swap_type_id = 1;
          offer_coin = request.offer_coin;
          demand_coin_denom = request.demand_coin_denom;
          offer_coin_fee = fee;
          order_price = order_price;
        })
          ∷ [])
        base_tx

  unfoldable pub withdraw_within : WithdrawWithinRequest → BaseTx → Io W ResultTx
  unfolding query_address build_and_send
  withdraw_within request base_tx =
      query_address node cfg base_tx.from_ base_tx.password >>= λ creator.
      build_and_send node cfg
        (withdraw_within_batch (record {
          withdrawer_address = node.address_string creator;
          pool_id = request.pool_id;
          pool_coin = request.pool_coin;
        })
          ∷ [])
        base_tx
