-- ===== src/Client/Accepted.antt =====
-- `SendBatch` and `broadcastTx` of modules/base_client.go and modules/tx.go, over services that answer and
-- a chain that accepts.
use plugchain_sdk_go.Prelude.{
  ℕ, zero, suc, ◌+◌, ◌-◌, ◌≡◌, refl, sym, ap, ◌∙◌, Bool, true, false, ◌||◌, ◌==◌, List, [], ◌∷◌,
  ◌++◌, append-nil, append_assoc, All, none, ok, err, if◌then◌else◌, unsupported_mode,
}
use mathlib.Core.Path.{subst}
use plugchain_sdk_go.Denom.{denom_eq}
use plugchain_sdk_go.Client.{pure, BaseTx, ClientConfig, CommitReply, SyncReply, ResultTx, Services}
use plugchain_sdk_go.Client.Factory.{Factory}
use plugchain_sdk_go.Client.Broadcast.{
  commit, async, sync, commit_result, sync_result, broadcast_commit, broadcast_sync,
  broadcast_async, simulate_tx, broadcast_tx, validate_tx_size,
}
use plugchain_sdk_go.Client.Batch.{
  accepted, sent, refused, returned, broadcast_built, answered, attempt, settle, send_one, go_on,
  send_loop, send_valid, validate_msgs, catch_panic, send_batch, max_batch, try_threshold,
}
use plugchain_sdk_go.Client.Segments.{IsSplit}
use plugchain_sdk_go.Client.Delivery.{Delivers, nothing, accept}
use plugchain_sdk_go.Client.Serves.{Succeeds, continue-Ends, Any, used_mode, Serves, IsPrepared}
use plugchain_sdk_go.Client.Built.{build_tx-Succeeds}
use plugchain_sdk_go.Client.Results.{run-eq}

module _ {W Msg : Type 0} (node : Services W Msg) (cfg : ClientConfig) (base_tx : BaseTx)
    (Good : W → Type 0) where
  -- Tendermint answers each broadcast with the code 0, and a simulation with the gas.
  pub record Accepts : Type 0 where
    pub committed :
        (tx : List ℕ)
        → Succeeds Good
            (λ (res : CommitReply).
              (res.check_tx.code == 0) ≡ true × (res.deliver_tx.code == 0) ≡ true)
            (node.broadcast_tx_commit tx)
    pub synced :
        (tx : List ℕ)
        → Succeeds Good (λ (res : SyncReply). (res.code == 0) ≡ true) (node.broadcast_tx_sync tx)
    pub hashed : (tx : List ℕ) → Succeeds Good Any (node.broadcast_tx_async tx)
    pub estimated : (tx : List ℕ) → Succeeds Good Any (node.estimate_tx_gas tx)

  -- One of the three modes of a broadcast.
  abbrev pub IsMode : List ℕ → Type 0
  IsMode mode = (denom_eq mode commit || denom_eq mode async || denom_eq mode sync) ≡ true

  module _ (accepts : Accepts) where
    broadcast_commit-Succeeds : (tx : List ℕ) → Succeeds Good Any (broadcast_commit node cfg tx)
    unfolding broadcast_commit commit_result
    broadcast_commit-Succeeds tx w g =
        continue-Ends Good _ Any _ _ (accepts.committed tx w g) (λ res codes w1 g1.
          let (checked, delivered) = codes in rw (checked, delivered) (_, w1, refl, tt, g1))

    broadcast_sync-Succeeds : (tx : List ℕ) → Succeeds Good Any (broadcast_sync node cfg tx)
    unfolding broadcast_sync sync_result
    broadcast_sync-Succeeds tx w g =
        continue-Ends Good _ Any _ _ (accepts.synced tx w g)
          (λ res code w1 g1. rw code (_, w1, refl, tt, g1))

    broadcast_async-Succeeds : (tx : List ℕ) → Succeeds Good Any (broadcast_async node cfg tx)
    unfolding broadcast_async
    broadcast_async-Succeeds tx w g =
        continue-Ends Good Any Any _ _ (accepts.hashed tx w g)
          (λ hash done w1 g1. (_, w1, refl, tt, g1))

    simulate_tx-Succeeds : (tx : List ℕ) → Succeeds Good Any (simulate_tx node cfg tx)
    unfolding simulate_tx
    simulate_tx-Succeeds tx w g =
        continue-Ends Good Any Any _ _ (accepts.estimated tx w g)
          (λ gas done w1 g1. (_, w1, refl, tt, g1))

    by_mode-Succeeds :
        (is_commit is_async is_sync : Bool) (tx : List ℕ)
        → (is_commit || is_async || is_sync) ≡ true
        → Succeeds Good Any (
            if is_commit
            then broadcast_commit node cfg tx
            else if is_async
            then broadcast_async node cfg tx
            else if is_sync
            then broadcast_sync node cfg tx
            else pure (err unsupported_mode))
    by_mode-Succeeds true is_async is_sync tx known w g = broadcast_commit-Succeeds tx w g
    by_mode-Succeeds false true is_sync tx known w g = broadcast_async-Succeeds tx w g
    by_mode-Succeeds false false true tx known w g = broadcast_sync-Succeeds tx w g
    by_mode-Succeeds false false false tx known w g = cc

    broadcast_tx-Succeeds :
        (tx mode : List ℕ) (simulate : Bool)
        → IsMode mode
        → Succeeds Good Any (broadcast_tx node cfg tx mode simulate)
    unfolding broadcast_tx
    broadcast_tx-Succeeds tx mode true known w g = simulate_tx-Succeeds tx w g
    broadcast_tx-Succeeds tx mode false known w g =
        by_mode-Succeeds (denom_eq mode commit) (denom_eq mode async) (denom_eq mode sync) tx known
          w g

    module _ (serves : Serves node cfg base_tx Good)
        (known : IsMode (used_mode node cfg base_tx Good)) where
      broadcast_built-accepted :
          (ms : List Msg) (tx : List ℕ) (f : Factory) (w : W)
          → IsPrepared node cfg base_tx Good f
          → Good w
          → (r : ResultTx) × (w1 : W) × (broadcast_built node cfg base_tx ms (ok (tx, f), w)
              ≡ (accepted r, w1))
            × Good w1
      unfolding validate_tx_size
      broadcast_built-accepted ms tx f w (_, _, _, _, mode) g =
          let (r, w1, e, _, g1) =
            broadcast_tx-Succeeds tx f.mode base_tx.simulate (subst IsMode (sym mode) known) w g in
          (r, w1, ap (answered node cfg base_tx f.address) e, g1)

      attempt-accepted :
          (ms : List Msg) (w : W)
          → Good w
          → (r : ResultTx) × (w1 : W) × (attempt node cfg base_tx ms w ≡ (accepted r, w1)) × Good w1
      unfolding attempt
      attempt-accepted ms w g =
          let ((tx, f), w1, e, prepared, g1) =
            build_tx-Succeeds node cfg base_tx Good serves ms w g in
          let (r, w2, e2, g2) = broadcast_built-accepted ms tx f w1 prepared g1 in
          (r, w2, ap (broadcast_built node cfg base_tx ms) e ∙ e2, g2)

      send_one-accepted :
          (n : ℕ) (ms : List Msg) (w w1 : W) (r : ResultTx)
          → attempt node cfg base_tx ms w ≡ (accepted r, w1)
          → send_one node cfg base_tx n ms w ≡ (sent n r, w1)
      unfolding send_one
      send_one-accepted zero ms w w1 r e =
          ap (settle node cfg base_tx 0 (λ e after. (refused e, after))) e
      send_one-accepted (suc n) ms w w1 r e =
          ap (settle node cfg base_tx (suc n) (λ e after. send_one node cfg base_tx n ms after)) e

      send_loop-accepted :
          (mss : List (List Msg)) (i n : ℕ) (rs0 : List ResultTx) (w : W)
          → Good w
          → (rs : List ResultTx) × (w' : W) × (send_loop node cfg base_tx mss i n rs0 w
              ≡ (returned (rs0 ++ rs) none, w'))
            × Delivers node cfg base_tx w n mss rs n w'
            × Good w'
      unfolding send_loop
      send_loop-accepted [] i n rs0 w g =
          ([], w, ap (λ rs. (returned rs none, w)) (sym (append-nil rs0)), nothing, g)
      send_loop-accepted (ms ∷ mss) i n rs0 w g =
          let (r, w1, e, g1) = attempt-accepted ms w g in
          let (rs, w', rest, delivered, g') =
            send_loop-accepted mss (i + 1) n (rs0 ++ r ∷ []) w1 g1 in
          let next = λ (k : ℕ) (rs1 : List ResultTx) (after : W).
            send_loop node cfg base_tx mss (i + 1) k rs1 after in
          (
            r ∷ rs,
            w',
            ap (go_on node cfg base_tx i rs0 next) (send_one-accepted n ms w w1 r e)
                ∙ rest
                ∙ ap (λ all. (returned all none, w')) (append_assoc rs0 (r ∷ []) rs),
            accept e delivered,
            g',
          )

      validate_msgs-ok :
          (ms : List Msg)
          → All (λ m. node.validate_basic m ≡ ok tt) ms
          → validate_msgs node cfg base_tx ms ≡ ok tt
      unfolding validate_msgs
      validate_msgs-ok [] all = refl
      validate_msgs-ok (m ∷ ms) (valid, all) = rw valid (validate_msgs-ok ms all)

      pub send_batch-accepted :
          (m : Msg) (ms : List Msg) (w : W)
          → All (λ m. node.validate_basic m ≡ ok tt) (m ∷ ms)
          → Good w
          → (mss : List (List Msg)) × (rs : List ResultTx) × (w' : W) × (send_batch node cfg base_tx
                (m ∷ ms)
                w
              ≡ ((rs, none), w'))
            × IsSplit max_batch (m ∷ ms) mss
            × Delivers node cfg base_tx w (try_threshold - 1) mss rs (try_threshold - 1) w'
            × Good w'
      unfolding send_batch
      send_batch-accepted m ms w all g =
          let (mss, split, e) = run-eq node cfg base_tx (m ∷ ms) w in
          let (rs, w', sent_all, delivered, g') =
            send_loop-accepted mss 0 (try_threshold - 1) [] w g in
          (
            mss,
            rs,
            w',
            ap (λ v. catch_panic node cfg base_tx (send_valid node cfg base_tx (m ∷ ms) v w))
                  (validate_msgs-ok (m ∷ ms) all)
                ∙ ap (catch_panic node cfg base_tx) (e ∙ sent_all)
                ∙ unfold catch_panic in refl,
            split,
            delivered,
            g',
          )
