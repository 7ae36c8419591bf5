-- ===== src/Client/Broadcast.antt =====
-- `broadcastTx` and its three modes of modules/tx.go, `GetError` of types/errors.go, and
-- `BuildAndSend` of modules/base_client.go.
use plugchain_sdk_go.Prelude.{
  ℕ, Bool, not, ltb, ◌==◌, if◌then◌else◌, List, [], ◌∷◌, length, Result, ok, err, panic, Error,
  sdk_error, unsupported_mode,
}
use plugchain_sdk_go.Prelude.Integer.{pos}
use plugchain_sdk_go.Denom.{denom_eq}
use plugchain_sdk_go.Events.{stringify_events}
use plugchain_sdk_go.Client.{
  Io, ◌>>=◌, pure, BaseTx, ClientConfig, ResultTx, TxResponse, CommitReply, SyncReply, Services,
}
use plugchain_sdk_go.Client.Cache.{remove_cache}
use plugchain_sdk_go.Client.Factory.{to_int64}
use plugchain_sdk_go.Client.Prepare.{build_tx, build_tx_with_account}

-- "sync", "async", "commit", and the code space "sdk"
abbrev pub sync : List ℕ
sync = b's' ∷ b'y' ∷ b'n' ∷ b'c' ∷ []

abbrev pub async : List ℕ
async = b'a' ∷ b's' ∷ b'y' ∷ b'n' ∷ b'c' ∷ []

abbrev pub commit : List ℕ
commit = b'c' ∷ b'o' ∷ b'm' ∷ b'm' ∷ b'i' ∷ b't' ∷ []

abbrev pub root_codespace : List ℕ
root_codespace = b's' ∷ b'd' ∷ b'k' ∷ []

-- `v17CodeMap`; a code without an entry becomes `InvalidRequest`, which is 18.
unfoldable pub code_v1 : ℕ → ℕ
code_v1 code =
    if code == 11
    then 10
    else if code == 12
    then 11
    else if code == 13
    then 12
    else if code == 14
    then 13
    else if code == 15
    then 6
    else if code == 16
    then 14
    else if code == 17
    then 11
    else if code == 21
    then 21
    else if ltb code 11
    then code
    else 18

unfoldable pub get_error : List ℕ → ℕ → List ℕ → Error
unfolding code_v1
get_error codespace code log = sdk_error codespace (code_v1 code) log

module _ {W Msg : Type 0} (node : Services W Msg) (cfg : ClientConfig) where
  abbrev pub is_ok : TxResponse → Bool
  is_ok r = r.code == 0

  unfoldable pub commit_result : CommitReply → Result ResultTx
  unfolding get_error stringify_events
  commit_result res =
      if not (is_ok res.check_tx)
      then err (get_error res.check_tx.codespace res.check_tx.code res.check_tx.log)
      else if not (is_ok res.deliver_tx)
      then err (get_error res.deliver_tx.codespace res.deliver_tx.code res.deliver_tx.log)
      else ok (record {
        gas_wanted = res.deliver_tx.gas_wanted;
        gas_used = res.deliver_tx.gas_used;
        events = stringify_events res.deliver_tx.events;
        hash = res.hash;
        height = res.height;
      })

  abbrev pub result_of_hash : List ℕ → ResultTx
  result_of_hash hash = record {
    gas_wanted = pos 0;
    gas_used = pos 0;
    events = [];
    hash = hash;
    height = pos 0;
  }

  unfoldable pub sync_result : SyncReply → Result ResultTx
  unfolding get_error
  sync_result res =
      if not (res.code == 0)
      then err (get_error root_codespace res.code res.log)
      else ok (result_of_hash res.hash)

  unfoldable pub broadcast_commit : List ℕ → Io W ResultTx
  unfolding commit_result
  broadcast_commit tx = node.broadcast_tx_commit tx >>= λ res. pure (commit_result res)

  unfoldable pub broadcast_sync : List ℕ → Io W ResultTx
  unfolding sync_result
  broadcast_sync tx = node.broadcast_tx_sync tx >>= λ res. pure (sync_result res)

  unfoldable pub broadcast_async : List ℕ → Io W ResultTx
  broadcast_async tx = node.broadcast_tx_async tx >>= λ hash. pure (ok (result_of_hash hash))

  unfoldable pub simulate_tx : List ℕ → Io W ResultTx
  unfolding to_int64
  simulate_tx tx = node.estimate_tx_gas tx >>= λ gas.
      pure (ok (record (result_of_hash []) { gas_wanted = to_int64 gas }))

  unfoldable pub broadcast_tx : List ℕ → List ℕ → Bool → Io W ResultTx
  unfolding simulate_tx broadcast_commit broadcast_async broadcast_sync
  broadcast_tx tx_bytes mode simulate =
      if simulate
      then simulate_tx tx_bytes
      else if denom_eq mode commit
      then broadcast_commit tx_bytes
      else if denom_eq mode async
      then broadcast_async tx_bytes
      else if denom_eq mode sync
      then broadcast_sync tx_bytes
      else pure (err unsupported_mode)

  -- `ValidateTxSize` accepts every size.
  unfoldable pub validate_tx_size : ℕ → List Msg → Result (Unit {0})
  validate_tx_size tx_size msgs = ok tt

  -- A broadcast that failed makes the client forget the account's numbers.
  unfoldable pub forget_on_error : List ℕ → Result ResultTx × W → Result ResultTx × W
  unfolding remove_cache
  forget_on_error addr (ok res, w) = (ok res, w)
  forget_on_error addr (err e, w) = (err e, if cfg.cached then remove_cache node cfg addr w else w)
  forget_on_error addr (panic p, w) = (panic p, w)

  unfoldable pub build_and_send : List Msg → BaseTx → Io W ResultTx
  unfolding build_tx validate_tx_size broadcast_tx forget_on_error
  build_and_send msgs base_tx = build_tx node cfg msgs base_tx >>= λ built.
      pure (validate_tx_size (length built.0) msgs) >>= λ done w.
      forget_on_error built.1.address (broadcast_tx built.0 built.1.mode base_tx.simulate w)

  unfoldable pub build_and_send_with_account : List ℕ → ℕ → ℕ → List Msg → BaseTx → Io W ResultTx
  unfolding build_tx_with_account validate_tx_size broadcast_tx
  build_and_send_with_account addr number seq msgs base_tx =
      build_tx_with_account node cfg addr number seq msgs base_tx >>= λ built.
      pure (validate_tx_size (length built.0) msgs) >>= λ done.
      broadcast_tx built.0 built.1.mode base_tx.simulate
