-- ===== src/Client/Prepare.antt =====
-- `prepare`, `prepareTemp` and the two `buildTx` of modules/base_client.go and modules/tx.go.
use plugchain_sdk_go.Prelude.{
  ℕ, true, false, not, ◌&&◌, ltb, ◌==◌, if◌then◌else◌, List, length, Result, ok, must,
}
use plugchain_sdk_go.CoinSet.{Coin}
use plugchain_sdk_go.DecCoin.{is_valid_dec_coins}
use plugchain_sdk_go.Client.{Io, continue, ◌>>=◌, pure, BaseTx, ClientConfig, Services}
use plugchain_sdk_go.Client.Cache.{query_address, query_and_refresh_account}
use plugchain_sdk_go.Client.Tokens.{to_min_coin}
use plugchain_sdk_go.Client.Factory.{Factory, new_factory}
use plugchain_sdk_go.Client.Sign.{build_and_sign}

module _ {W Msg : Type 0} (node : Services W Msg) (cfg : ClientConfig) where
  -- What both ways to prepare a factory set before the account.
  unfoldable pub base_factory : BaseTx → Factory
  unfolding new_factory
  base_factory base_tx = record new_factory {
    chain_id = cfg.chain_id;
    mode = cfg.mode;
    simulate_and_execute = base_tx.simulate;
    gas = cfg.gas;
  }

  abbrev pub must_fees : Result (List Coin) × W → Result (List Coin) × W
  must_fees (r, w) = (must r, w)

  -- The fee of the transaction, or the configured one, whose conversion must not fail.
  unfoldable pub fees_for : BaseTx → Io W (List Coin)
  unfolding to_min_coin
  fees_for base_tx w =
      if not (length base_tx.fee == 0) && is_valid_dec_coins base_tx.fee
      then to_min_coin node cfg base_tx.fee w
      else must_fees (to_min_coin node cfg cfg.fee w)

  -- The options of the transaction take the place of the configured ones where they are given.
  unfoldable pub with_options : BaseTx → Factory → Factory
  with_options base_tx f = record f {
    mode = if ltb 0 (length base_tx.mode) then base_tx.mode else f.mode;
    gas = if ltb 0 base_tx.gas then base_tx.gas else f.gas;
    memo = if ltb 0 (length base_tx.memo) then base_tx.memo else f.memo;
  }

  unfoldable pub with_account : BaseTx → List ℕ → ℕ → ℕ → Factory
  unfolding base_factory
  with_account base_tx addr number seq = record (base_factory base_tx) {
    address = addr;
    account_number = number;
    sequence = seq;
    password = base_tx.password;
  }

  unfoldable pub prepare_temp : List ℕ → ℕ → ℕ → BaseTx → Io W Factory
  unfolding fees_for with_options with_account
  prepare_temp addr number seq base_tx = fees_for base_tx >>= λ fees.
      pure
        (ok (with_options base_tx (record (with_account base_tx addr number seq) { fees = fees })))

  -- The numbers that the caller gives, if both are there, or those of the account.
  unfoldable pub account_numbers : BaseTx → List ℕ → Io W (ℕ × ℕ)
  unfolding query_and_refresh_account
  account_numbers base_tx addr w =
      if not (base_tx.account_number == 0) && not (base_tx.sequence == 0)
      then (ok (base_tx.account_number, base_tx.sequence), w)
      else continue (λ account. pure (ok (account.account_number, account.sequence)))
          (query_and_refresh_account node cfg addr w)

  unfoldable pub prepare : BaseTx → Io W Factory
  unfolding query_address account_numbers prepare_temp
  prepare base_tx = query_address node cfg base_tx.from_ base_tx.password >>= λ addr.
      account_numbers base_tx (node.address_string addr) >>= λ numbers.
      prepare_temp (node.address_string addr) numbers.0 numbers.1 base_tx

  -- `buildTx`: the bytes, and the factory that built them.
  unfoldable pub build_tx : List Msg → BaseTx → Io W (List ℕ × Factory)
  unfolding prepare build_and_sign
  build_tx msgs base_tx = prepare base_tx >>= λ builder.
      build_and_sign node builder base_tx.from_ msgs false >>= λ tx_byte.
      pure (ok (tx_byte, builder))

  unfoldable pub build_tx_with_account :
      List ℕ → ℕ → ℕ → List Msg → BaseTx → Io W (List ℕ × Factory)
  unfolding prepare_temp build_and_sign
  build_tx_with_account addr number seq msgs base_tx =
      prepare_temp addr number seq base_tx >>= λ builder.
      build_and_sign node builder base_tx.from_ msgs false >>= λ tx_byte.
      pure (ok (tx_byte, builder))

  -- `BuildAndSign`
  unfoldable pub build_and_sign_json : List Msg → BaseTx → Io W (List ℕ)
  unfolding prepare build_and_sign
  build_and_sign_json msgs base_tx =
      prepare base_tx >>= λ builder. build_and_sign node builder base_tx.from_ msgs true
