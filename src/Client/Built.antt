-- ===== src/Client/Built.antt =====
-- `buildTx` of modules/base_client.go, and the calls behind it, over services that answer.
use plugchain_sdk_go.Client.Serves.{Succeeds, continue-Ends, Any, Serves, IsPrepared}
use plugchain_sdk_go.Prelude.{ℕ, ◌≡◌, refl, ap, ◌∙◌, false, List, [], ◌∷◌, none, some, ok}
use plugchain_sdk_go.DecCoin.{is_zero_dec_coins}
use plugchain_sdk_go.Client.{BaseTx, ClientConfig, TxBuilder, Services}
use plugchain_sdk_go.Client.Factory.{Factory, derived_fees, pack_msgs, build_unsigned_tx}
use plugchain_sdk_go.Client.Sign.{chosen_mode, signer_data, signed, sign_tx, build_and_sign}
use plugchain_sdk_go.Client.Prepare.{build_tx}
use plugchain_sdk_go.Client.Prepared.{prepare-Succeeds}

module _ {W Msg : Type 0} (node : Services W Msg) (cfg : ClientConfig) (base_tx : BaseTx)
    (Good : W → Type 0) (serves : Serves node cfg base_tx Good) where
  pack_msgs-ok : (ms : List Msg) → pack_msgs node ms ≡ ok tt
  unfolding pack_msgs
  pack_msgs-ok [] = refl
  pack_msgs-ok (m ∷ ms) = rw (serves.packed m) (pack_msgs-ok ms)

  build_unsigned_tx-ok :
      (f : Factory) (ms : List Msg)
      → IsPrepared node cfg base_tx Good f
      → (tx : TxBuilder Msg) × (build_unsigned_tx node f ms ≡ ok tx)
  unfolding build_unsigned_tx derived_fees is_zero_dec_coins
  build_unsigned_tx-ok f ms (_, chain, prices, _, _) =
      let tx : TxBuilder Msg = record {
        msgs = ms;
        memo = f.memo;
        fee_amount = f.fees;
        gas_limit = f.gas;
        signatures = [];
      } in
      (tx, rw (chain, serves.chain_named, prices, pack_msgs-ok ms) refl)

  sign_tx-Succeeds :
      (f : Factory) (tx : TxBuilder Msg)
      → IsPrepared node cfg base_tx Good f
      → Succeeds Good Any (sign_tx node f base_tx.from_ tx)
  unfolding sign_tx
  sign_tx-Succeeds f tx (password, _, _, sign_mode, _) w g =
      let (info, w1, e, g1, _) = serves.key_found w g in
      let unsigned = signed node f info.0 none tx in
      let (bytes, made) = serves.bytes_made (signer_data node f) unsigned in
      let default : chosen_mode node f ≡ node.default_sign_mode =
        unfold chosen_mode in rw sign_mode refl in
      let made_so : node.get_sign_bytes (chosen_mode node f) (signer_data node f) unsigned
          ≡ ok bytes =
        ap (λ mode. node.get_sign_bytes mode (signer_data node f) unsigned) default ∙ made in
      let (sig, w2, e2, _, g2) = serves.bytes_signed bytes w1 g1 in
      (signed node f info.0 (some sig) tx, w2, rw (password, e, made_so, e2) refl, tt, g2)

  build_and_sign-Succeeds :
      (f : Factory) (ms : List Msg)
      → IsPrepared node cfg base_tx Good f
      → Succeeds Good Any (build_and_sign node f base_tx.from_ ms false)
  unfolding build_and_sign
  build_and_sign-Succeeds f ms prepared w g =
      let (tx, e) = build_unsigned_tx-ok f ms prepared in
      rw e (
        continue-Ends Good Any Any _ _ (sign_tx-Succeeds f tx prepared w g) (λ done h w1 g1.
          let (bytes, e1) = serves.encoded done in (bytes, w1, ap (λ r. (r, w1)) e1, tt, g1)))

  -- Over services that answer, the transaction of any messages is built and signed.
  pub build_tx-Succeeds :
      (ms : List Msg)
      → Succeeds Good
          (λ (built : List ℕ × Factory). IsPrepared node cfg base_tx Good built.1)
          (build_tx node cfg ms base_tx)
  unfolding build_tx
  build_tx-Succeeds ms w g =
      continue-Ends Good (IsPrepared node cfg base_tx Good) _ _ _
        (prepare-Succeeds node cfg base_tx Good serves w g)
        (λ f prepared w1 g1.
          continue-Ends Good Any _ _ _ (build_and_sign-Succeeds f ms prepared w1 g1)
            (λ bytes done w2 g2. ((bytes, f), w2, refl, prepared, g2)))
