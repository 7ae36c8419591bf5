-- ===== src/Client/Sign.antt =====
-- `Factory.Sign` and `Factory.BuildAndSign` of client/tx/factory.go.
use plugchain_sdk_go.Prelude.{ℕ, Bool, ◌==◌, if◌then◌else◌, List, [], ◌∷◌, Option, none, some, ok}
use plugchain_sdk_go.Client.{Io, ◌>>=◌, pure, SignerData, TxBuilder, Services}
use plugchain_sdk_go.Client.Factory.{Factory, build_unsigned_tx}

module _ {W Msg : Type 0} (node : Services W Msg) where
  unfoldable pub chosen_mode : Factory → ℕ
  chosen_mode f = if f.sign_mode == 0 then node.default_sign_mode else f.sign_mode

  unfoldable pub signer_data : Factory → SignerData
  signer_data f = record {
    chain_id = f.chain_id;
    account_number = f.account_number;
    sequence = f.sequence;
  }

  abbrev pub signed : Factory → List ℕ → Option (List ℕ) → TxBuilder Msg → TxBuilder Msg
  signed f key sig tx = record tx {
    signatures =
        record { pub_key = key; sign_mode = chosen_mode f; signature = sig; sequence = f.sequence }
        ∷ [];
  }

  -- The bytes to sign are those of the transaction with an empty signature set.
  unfoldable pub sign_tx : Factory → List ℕ → TxBuilder Msg → Io W (TxBuilder Msg)
  unfolding chosen_mode signer_data
  sign_tx f name tx = node.find name f.password >>= λ info.
      pure (node.get_sign_bytes (chosen_mode f) (signer_data f) (signed f info.0 none tx))
      >>= λ bytes.
          node.sign name f.password bytes >>= λ sig. pure (ok (signed f info.0 (some sig) tx))

  unfoldable pub build_and_sign : Factory → List ℕ → List Msg → Bool → Io W (List ℕ)
  unfolding build_unsigned_tx sign_tx
  build_and_sign f name msgs json = pure (build_unsigned_tx node f msgs) >>= λ tx.
      sign_tx f name tx >>= λ done.
      pure (if json then node.tx_json_encoder done else node.tx_encoder done)
