-- ===== src/Client/Results.antt =====
-- What `SendBatch` of modules/base_client.go promises for what it returns.
use plugchain_sdk_go.Prelude.{
  ℕ, suc, ◌-◌, ◌≡◌, refl, sym, ◌∙◌, arith, ◌⊎◌, inl, inr, List, [], ◌∷◌, none, Result, ok, err,
  panic, Panic,
}
use plugchain_sdk_go.Client.{ClientConfig, BaseTx, ResultTx, Services}
use plugchain_sdk_go.Client.Batch.{
  Loop, returned, resize, panicked, send_loop, resized, send_rounds, send_valid, validate_msgs,
  catch_panic, send_batch, sub_array, max_batch, try_threshold,
}
use plugchain_sdk_go.Client.Segments.{IsSplit, sub_array_lem}
use plugchain_sdk_go.Client.Delivery.{Delivers, send_loop-Ended}
use plugchain_sdk_go.Client.Fits.{LoopFits, send_loop-Fits}

module _ {W Msg : Type 0} (node : Services W Msg) (cfg : ClientConfig) (base_tx : BaseTx) where
  -- All of the messages are delivered, in their order, in segments of at most a hundred.
  abbrev pub DeliversAll : List Msg → List ResultTx → W → W → Type 0
  DeliversAll msgs rs w w' =
      (mss : List (List Msg)) × IsSplit max_batch msgs mss
      × ((m : ℕ) × Delivers node cfg base_tx w (try_threshold - 1) mss rs m w')

  resized-eq :
      (rest : ℕ → ℕ → List ResultTx → W → Loop × W) (run : Loop × W)
      → LoopFits node cfg base_tx run
      → resized node cfg base_tx rest run ≡ run
  resized-eq rest (returned rs e, w) f = refl
  resized-eq rest (panicked rs p, w) f = refl
  resized-eq rest (resize i n rs, w) f = absurd f

  send_rounds-eq :
      (rounds : ℕ) (msgs : List Msg) (mss : List (List Msg)) (w : W)
      → sub_array max_batch msgs ≡ ok mss
      → send_rounds node cfg base_tx (suc rounds) max_batch msgs (try_threshold - 1) [] w
        ≡ send_loop node cfg base_tx mss 0 (try_threshold - 1) [] w
  unfolding send_rounds
  send_rounds-eq rounds msgs mss w e = rw e (
      resized-eq _ (send_loop node cfg base_tx mss 0 (try_threshold - 1) [] w)
        (send_loop-Fits node cfg base_tx mss 0 (try_threshold - 1) [] w))

  -- The deferred recovery turns a panic into a result without an error.
  abbrev pub Panicked : List Msg → List ResultTx → W → W → Type 0
  Panicked msgs rs w w' =
      (p : Panic) × (send_valid node cfg base_tx msgs (validate_msgs node cfg base_tx msgs) w
        ≡ (panicked rs p, w'))

  caught :
      (rs : List ResultTx) (w' : W) (run : Loop × W)
      → LoopFits node cfg base_tx run
      → catch_panic node cfg base_tx run ≡ ((rs, none), w')
      → (run ≡ (returned rs none, w')) ⊎ ((p : Panic) × (run ≡ (panicked rs p, w')))
  unfolding catch_panic
  caught rs w' (returned rs1 e, w1) f h = inl cc
  caught rs w' (panicked rs1 p, w1) f h = inr (p, cc)
  caught rs w' (resize i n rs1, w1) f h = absurd f

  -- A run without a panic is the loop over the segments of the messages.
  pub run-eq :
      (msgs : List Msg) (w : W)
      → (mss : List (List Msg)) × IsSplit max_batch msgs mss
        × (send_valid node cfg base_tx msgs (ok tt) w
            ≡ send_loop node cfg base_tx mss 0 (try_threshold - 1) [] w)
  unfolding send_valid
  run-eq msgs w =
      let (mss, cut, split) = sub_array_lem max_batch msgs (omega arith) in
      (mss, split, send_rounds-eq 7 msgs mss w cut)

  run-Fits :
      (msgs : List Msg) (v : Result (Unit {0})) (w : W)
      → LoopFits node cfg base_tx (send_valid node cfg base_tx msgs v w)
  run-Fits msgs (ok done) w =
      let (mss, split, e) = run-eq msgs w in
      rw e (send_loop-Fits node cfg base_tx mss 0 (try_threshold - 1) [] w)
  run-Fits msgs (err e) w = unfold send_valid in tt
  run-Fits msgs (panic p) w = unfold send_valid in tt

  run-DeliversAll :
      (msgs : List Msg) (rs : List ResultTx) (v : Result (Unit {0})) (w w' : W)
      → send_valid node cfg base_tx msgs v w ≡ (returned rs none, w')
      → DeliversAll msgs rs w w'
  unfolding send_valid
  run-DeliversAll msgs rs (ok done) w w' h =
      let (mss, split, e) = run-eq msgs w in
      let (new, m, join, d) =
        send_loop-Ended node cfg base_tx mss 0 (try_threshold - 1) [] rs w w' (sym e ∙ h) in
      (mss, split, (m, rw join d))
  run-DeliversAll msgs rs (err e) w w' h = cc
  run-DeliversAll msgs rs (panic p) w w' h = cc

  -- Where SendBatch returns results without an error, either the messages were cut into
  -- consecutive segments of at most a hundred and each segment was delivered, in order, by the
  -- first attempt that the node accepted, with its result at its place and at most two failed
  -- attempts in all, or a panic was recovered.
  pub send_batch-DeliversAll :
      (msgs : List Msg) (rs : List ResultTx) (w w' : W)
      → send_batch node cfg base_tx msgs w ≡ ((rs, none), w')
      → DeliversAll msgs rs w w' ⊎ Panicked msgs rs w w'
  unfolding send_batch
  send_batch-DeliversAll [] rs w w' h = cc
  send_batch-DeliversAll (m ∷ ms) rs w w' h =
      let v = validate_msgs node cfg base_tx (m ∷ ms) in
      elim (caught rs w' (send_valid node cfg base_tx (m ∷ ms) v w) (run-Fits (m ∷ ms) v w) h) [
        | inl e ↦ inl (run-DeliversAll (m ∷ ms) rs v w w' e)
        | inr e ↦ inr e
      ]
