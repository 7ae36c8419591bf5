-- ===== src/Bank/Sends.antt =====
-- modules/bank/bank.go: `Send` and `MultiSend`, over the client's transactions.
pub mod Built
use plugchain_sdk_go.Prelude.{
  ℕ, Bool, true, false, ltb, if◌then◌else◌, List, [], ◌∷◌, ◌++◌, length, Option, none, some, Result,
  ok, err, panic, Error,
}
use plugchain_sdk_go.CoinSet.{Coin}
use plugchain_sdk_go.DecCoin.{DecCoins}
use plugchain_sdk_go.Client.{Io, continue, ◌>>=◌, pure, BaseTx, ClientConfig, ResultTx, Services}
use plugchain_sdk_go.Client.Cache.{query_address}
use plugchain_sdk_go.Client.Tokens.{to_min_coin}
use plugchain_sdk_go.Client.Broadcast.{build_and_send, build_and_send_with_account}
use plugchain_sdk_go.Client.Batch
use plugchain_sdk_go.Client.Batch.{sub_array}
use plugchain_sdk_go.Bank.{Input, Output, MsgSend, MsgMultiSend, BankMsg, send, multi_send}

pub record Receipt : Type 0 where
  pub address : List ℕ
  pub amount : DecCoins

abbrev pub max_msg_len : ℕ
max_msg_len = 5

-- `NewMsgSend`, `NewInput` and `NewOutput` put an address as its string.
module _ {W : Type 0} (node : Services W BankMsg) (cfg : ClientConfig) where
  unfoldable pub new_msg_send : List ℕ → List ℕ → List Coin → MsgSend
  new_msg_send from_addr to_addr amount = record {
    from_address = node.address_string from_addr;
    to_address = node.address_string to_addr;
    amount = amount;
  }

  unfoldable pub new_input : List ℕ → List Coin → Input
  new_input addr coins = record { address = node.address_string addr; coins = coins }

  unfoldable pub new_output : List ℕ → List Coin → Output
  new_output addr coins = record { address = node.address_string addr; coins = coins }

  -- The message that `Send` and `SendWitchSpecAccountInfo` build, with its sender.
  unfoldable pub send_msg : List ℕ → DecCoins → BaseTx → Io W (List ℕ × BankMsg)
  unfolding query_address to_min_coin new_msg_send
  send_msg to amount base_tx = query_address node cfg base_tx.from_ base_tx.password >>= λ sender.
      to_min_coin node cfg amount >>= λ amt. pure (node.acc_address_from_bech32 to) >>= λ out_addr.
      pure (ok (sender, send (new_msg_send sender out_addr amt)))

  unfoldable pub send_coins : List ℕ → DecCoins → BaseTx → Io W ResultTx
  unfolding send_msg build_and_send
  send_coins to amount base_tx =
      send_msg to amount base_tx >>= λ built. build_and_send node cfg (built.1 ∷ []) base_tx

  unfoldable pub send_with_account : List ℕ → ℕ → ℕ → DecCoins → BaseTx → Io W ResultTx
  unfolding send_msg build_and_send_with_account
  send_with_account to seq number amount base_tx = send_msg to amount base_tx >>= λ built.
      build_and_send_with_account node cfg (node.address_string built.0) number seq (built.1 ∷ [])
        base_tx

  -- The loop that fills the inputs and the outputs of a message.
  unfoldable pub parties : List ℕ → List Receipt → Io W (List Input × List Output)
  unfolding to_min_coin new_input new_output
  parties sender [] = pure (ok ([], []))
  parties sender (receipt ∷ receipts) = to_min_coin node cfg receipt.amount >>= λ amt.
      pure (node.acc_address_from_bech32 receipt.address) >>= λ out_addr.
      parties sender receipts >>= λ rest.
      pure (ok (new_input sender amt ∷ rest.0, new_output out_addr amt ∷ rest.1))

  unfoldable pub multi_send_msg : List ℕ → List Receipt → Io W BankMsg
  unfolding parties
  multi_send_msg sender receipts = parties sender receipts >>= λ sides.
      pure (ok (multi_send (record { inputs = sides.0; outputs = sides.1 })))

  -- The messages of the segments of a long list of receipts.
  unfoldable pub batch_msgs : List ℕ → List (List Receipt) → Io W (List BankMsg)
  unfolding multi_send_msg
  batch_msgs sender [] = pure (ok [])
  batch_msgs sender (receipts ∷ segments) = multi_send_msg sender receipts >>= λ msg.
      batch_msgs sender segments >>= λ msgs. pure (ok (msg ∷ msgs))

  -- The bank client's `SendBatch`; the results are those of the base client's.
  unfoldable pub send_receipts :
      List ℕ → List Receipt → BaseTx → Io W (List ResultTx × Option Error)
  unfolding batch_msgs sub_array Batch.send_batch
  send_receipts sender receipts base_tx = pure (sub_array max_msg_len receipts) >>= λ segments.
      batch_msgs sender segments >>= λ msgs w.
      let (returned, w') = Batch.send_batch node cfg base_tx msgs w in (ok returned, w')

  unfoldable pub multi_send_coins : List Receipt → BaseTx → Io W (List ResultTx × Option Error)
  unfolding query_address send_receipts multi_send_msg build_and_send
  multi_send_coins receipts base_tx =
      query_address node cfg base_tx.from_ base_tx.password >>= λ sender.
      if ltb max_msg_len (length receipts)
      then send_receipts sender receipts base_tx
      else (multi_send_msg sender receipts >>= λ msg.
          build_and_send node cfg (msg ∷ []) base_tx >>= λ res. pure (ok (res ∷ [], none)))
