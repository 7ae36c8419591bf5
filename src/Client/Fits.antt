-- ===== src/Client/Fits.antt =====
-- `ValidateTxSize` of modules/base_client.go has no limit, so `SendBatch` never takes its way through
-- `resize`.
use plugchain_sdk_go.Prelude.{
  ℕ, zero, suc, ◌+◌, Bool, true, false, if◌then◌else◌, List, [], ◌∷◌, ◌++◌, Result, ok, err, panic,
  Error,
}
use plugchain_sdk_go.Client.{ClientConfig, BaseTx, ResultTx, Services}
use plugchain_sdk_go.Client.Batch.{
  Attempt, accepted, failed, not_built, oversized, crashed, Outcome, sent, refused, too_large, died,
  Loop, resize, attempt, forget, settle, send_one, go_on, send_loop, answered, broadcast_built,
}
use plugchain_sdk_go.Client.Factory.{Factory}
use plugchain_sdk_go.Client.Broadcast.{validate_tx_size}

module _ {W Msg : Type 0} (node : Services W Msg) (cfg : ClientConfig) (base_tx : BaseTx) where
  -- `ValidateTxSize` accepts every transaction, so no segment is too large.
  abbrev Fits : Outcome × W → Type 0
  Fits (too_large n, w) = ⊥
  Fits _ = Unit

  abbrev AttemptFits : Attempt × W → Type 0
  AttemptFits (oversized addr, w) = ⊥
  AttemptFits _ = Unit

  abbrev pub LoopFits : Loop × W → Type 0
  LoopFits (resize i n rs, w) = ⊥
  LoopFits _ = Unit

  answered-Fits :
      (addr : List ℕ) (r : Result ResultTx × W) → AttemptFits (answered node cfg base_tx addr r)
  answered-Fits addr (ok res, w) = tt
  answered-Fits addr (err e, w) = tt
  answered-Fits addr (panic p, w) = tt

  built-Fits :
      (ms : List Msg) (r : Result (List ℕ × Factory) × W)
      → AttemptFits (broadcast_built node cfg base_tx ms r)
  unfolding validate_tx_size
  built-Fits ms (ok (tx_byte, ctx), w) = answered-Fits ctx.address _
  built-Fits ms (err e, w) = tt
  built-Fits ms (panic p, w) = tt

  attempt-Fits : (ms : List Msg) (w : W) → AttemptFits (attempt node cfg base_tx ms w)
  unfolding attempt
  attempt-Fits ms w = built-Fits ms _

  if-Fits : (b : Bool) (x y : Outcome × W) → Fits x → Fits y → Fits (if b then x else y)
  if-Fits true x y h k = h
  if-Fits false x y h k = k

  settle-Fits :
      (n : ℕ) (next : Error → W → Outcome × W)
      → ((e : Error) (w : W) → Fits (next e w))
      → (a : Attempt × W) → AttemptFits a
      → Fits (settle node cfg base_tx n next a)
  settle-Fits n next h (accepted res, w) f = tt
  settle-Fits n next h (failed addr e, w) f =
      if-Fits cfg.cached (next e (forget node cfg base_tx addr w)) (refused e, w)
        (h e (forget node cfg base_tx addr w)) tt
  settle-Fits n next h (not_built e, w) f = tt
  settle-Fits n next h (oversized addr, w) f = f
  settle-Fits n next h (crashed p, w) f = tt

  send_one-Fits : (n : ℕ) (ms : List Msg) (w : W) → Fits (send_one node cfg base_tx n ms w)
  unfolding send_one
  send_one-Fits zero ms w =
      settle-Fits 0 (λ e after. (refused e, after)) (λ e after. tt) _ (attempt-Fits ms w)
  send_one-Fits (suc n) ms w =
      settle-Fits (suc n) (λ e after. send_one node cfg base_tx n ms after)
        (λ e after. send_one-Fits n ms after) _ (attempt-Fits ms w)

  go_on-Fits :
      (i : ℕ) (rs : List ResultTx) (rest : ℕ → List ResultTx → W → Loop × W)
      → ((k : ℕ) (rs1 : List ResultTx) (w : W) → LoopFits (rest k rs1 w))
      → (o : Outcome × W) → Fits o
      → LoopFits (go_on node cfg base_tx i rs rest o)
  go_on-Fits i rs rest h (sent k r, w) f = h k (rs ++ r ∷ []) w
  go_on-Fits i rs rest h (refused e, w) f = tt
  go_on-Fits i rs rest h (too_large k, w) f = f
  go_on-Fits i rs rest h (died p, w) f = tt

  pub send_loop-Fits :
      (mss : List (List Msg)) (i n : ℕ) (rs : List ResultTx) (w : W)
      → LoopFits (send_loop node cfg base_tx mss i n rs w)
  unfolding send_loop
  send_loop-Fits [] i n rs w = tt
  send_loop-Fits (ms ∷ mss) i n rs w =
      go_on-Fits i rs (λ k rs1 after. send_loop node cfg base_tx mss (i + 1) k rs1 after)
        (λ k rs1 after. send_loop-Fits mss (i + 1) k rs1 after) _ (send_one-Fits n ms w)
