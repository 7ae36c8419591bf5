-- ===== src/Client/Batch.antt =====
-- `SubArray` of utils/commom.go and `SendBatch` of modules/base_client.go: the messages are sent in
-- transactions of at most `max_batch`, and a broadcast that fails is tried again.
use plugchain_sdk_go.Prelude.{
  ℕ, zero, suc, ◌+◌, ◌-◌, ◌*◌, ◌/◌, ◌%◌, ltb, leb, ◌==◌, if◌then◌else◌, List, [], ◌∷◌, ◌++◌, length,
  take, drop, Option, none, some, Result, ok, err, panic, Panic, Error, division_by_zero,
  no_messages, ◌>>◌,
}
use plugchain_sdk_go.Client.{BaseTx, ClientConfig, ResultTx, Services}
use plugchain_sdk_go.Client.Cache.{remove_cache}
use plugchain_sdk_go.Client.Factory.{Factory}
use plugchain_sdk_go.Client.Prepare.{build_tx}
use plugchain_sdk_go.Client.Broadcast.{broadcast_tx, validate_tx_size}

abbrev pub max_batch : ℕ
max_batch = 100

abbrev pub try_threshold : ℕ
try_threshold = 3

module _ {ℓ} {A : Type ℓ} where
  -- `array[start:end]`, for `start ≤ end`
  abbrev pub sub : ℕ → ℕ → List A → List A
  sub start end_ array = take (end_ - start) (drop start array)

  -- The loop of `SubArray`, for `left` more segments; `i` counts those before.
  unfoldable pub segments_loop : ℕ → ℕ → ℕ → List A → List (List A)
  segments_loop zero i sub_len array = []
  segments_loop (suc left) i sub_len array =
      let end_ : ℕ = if left == 0 then length array else (i + 1) * sub_len in
      sub (i * sub_len) end_ array ∷ segments_loop left (i + 1) sub_len array

  unfoldable pub sub_array : ℕ → List A → Result (List (List A))
  unfolding segments_loop
  sub_array sub_len array =
      if leb (length array) sub_len
      then ok (array ∷ [])
      else if sub_len == 0
      then panic division_by_zero
      else (let batch : ℕ = length array / sub_len in
          let rounds : ℕ = if ltb 0 (length array % sub_len) then batch + 1 else batch in
          ok (segments_loop rounds 0 sub_len array))

-- One run of the body behind `retry`, up to the answer to the broadcast, with the address.
pub data Attempt : Type 0 where
  accepted : ResultTx → Attempt
  failed : List ℕ → Error → Attempt
  not_built : Error → Attempt
  oversized : List ℕ → Attempt
  crashed : Panic → Attempt

-- How the sending of one segment ends; `sent` has the number of failures that are still allowed.
pub data Outcome : Type 0 where
  sent : ℕ → ResultTx → Outcome
  refused : Error → Outcome
  too_large : ℕ → Outcome
  died : Panic → Outcome

-- How the loop over the segments ends: `returned` has the results, and the error if there is one.
pub data Loop : Type 0 where
  returned : List ResultTx → Option Error → Loop
  resize : ℕ → ℕ → List ResultTx → Loop
  panicked : List ResultTx → Panic → Loop

module _ {W Msg : Type 0} (node : Services W Msg) (cfg : ClientConfig) (base_tx : BaseTx) where
  abbrev pub answered : List ℕ → Result ResultTx × W → Attempt × W
  answered addr (ok res, w) = (accepted res, w)
  answered addr (err e, w) = (failed addr e, w)
  answered addr (panic p, w) = (crashed p, w)

  abbrev pub broadcast_built : List Msg → Result (List ℕ × Factory) × W → Attempt × W
  broadcast_built ms (err e, w) = (not_built e, w)
  broadcast_built ms (panic p, w) = (crashed p, w)
  broadcast_built ms (ok (tx_byte, ctx), w) = elim (validate_tx_size node cfg (length tx_byte) ms) [
    | ok done ↦ answered ctx.address (broadcast_tx node cfg tx_byte ctx.mode base_tx.simulate w)
    | err e ↦ (oversized ctx.address, w)
    | panic p ↦ (crashed p, w)
  ]

  unfoldable pub attempt : List Msg → W → Attempt × W
  unfolding build_tx broadcast_tx validate_tx_size
  attempt ms w = broadcast_built ms (build_tx node cfg ms base_tx w)

  abbrev pub forget : List ℕ → W → W
  forget addr w = remove_cache node cfg addr w

  -- What follows an attempt; `again` is the next attempt, after the failure `e`.
  abbrev pub settle : ℕ → (Error → W → Outcome × W) → Attempt × W → Outcome × W
  settle n again (accepted res, w) = (sent n res, w)
  settle n again (failed addr e, w) = if cfg.cached then again e (forget addr w) else (refused e, w)
  settle n again (not_built e, w) = (refused e, w)
  settle n again (oversized addr, w) = (too_large n, forget addr w)
  settle n again (crashed p, w) = (died p, w)

  -- One segment, with `n` failures allowed before the last attempt.
  unfoldable pub send_one : ℕ → List Msg → W → Outcome × W
  unfolding attempt
  send_one zero ms w = settle 0 (λ e after. (refused e, after)) (attempt ms w)
  send_one (suc n) ms w = settle (suc n) (λ e after. send_one n ms after) (attempt ms w)

  abbrev pub go_on : ℕ → List ResultTx → (ℕ → List ResultTx → W → Loop × W) → Outcome × W → Loop × W
  go_on i rs rest (sent n res, w) = rest n (rs ++ res ∷ []) w
  go_on i rs rest (refused e, w) = (returned rs (some e), w)
  go_on i rs rest (too_large n, w) = (resize i n rs, w)
  go_on i rs rest (died p, w) = (panicked rs p, w)

  -- The loop over the segments from the `i`-th on, with the results so far.
  unfoldable pub send_loop : List (List Msg) → ℕ → ℕ → List ResultTx → W → Loop × W
  unfolding send_one
  send_loop [] i n rs w = (returned rs none, w)
  send_loop (ms ∷ mss) i n rs w =
      go_on i rs (λ n' rs' after. send_loop mss (i + 1) n' rs' after) (send_one n ms w)

  -- The messages that are left are sent in batches of half the size.
  abbrev pub resized : (ℕ → ℕ → List ResultTx → W → Loop × W) → Loop × W → Loop × W
  resized rest (returned rs e, w) = (returned rs e, w)
  resized rest (panicked rs p, w) = (panicked rs p, w)
  resized rest (resize i n rs, w) = rest i n rs w

  abbrev pub over_segments :
      (List (List Msg) → Loop × W) → List ResultTx → W → Result (List (List Msg)) → Loop × W
  over_segments run rs w (ok segments) = run segments
  over_segments run rs w (err e) = (returned rs (some e), w)
  over_segments run rs w (panic p) = (panicked rs p, w)

  -- The body behind `resize`. A batch of 100 is halved seven times before its size is 0, where
  -- `SubArray` divides by zero: eight rounds are enough.
  unfoldable pub send_rounds : ℕ → ℕ → List Msg → ℕ → List ResultTx → W → Loop × W
  unfolding send_loop sub_array
  send_rounds zero batch msgs n rs w = (panicked rs division_by_zero, w)
  send_rounds (suc rounds) batch msgs n rs w =
      over_segments
        (λ segments.
          resized
            (λ i n' rs' after. send_rounds rounds (batch / 2) (drop (i * batch) msgs) n' rs' after)
            (send_loop segments 0 n rs w))
        rs w (sub_array batch msgs)

  unfoldable pub validate_msgs : List Msg → Result (Unit {0})
  validate_msgs [] = ok tt
  validate_msgs (m ∷ ms) = node.validate_basic m >> validate_msgs ms

  unfoldable pub send_valid : List Msg → Result (Unit {0}) → W → Loop × W
  unfolding send_rounds
  send_valid msgs (ok done) w = send_rounds 8 max_batch msgs (try_threshold - 1) [] w
  send_valid msgs (err e) w = (returned [] (some e), w)
  send_valid msgs (panic p) w = (panicked [] p, w)

  -- The deferred `CatchPanic` ends the panic; the results so far and the nil error are returned.
  unfoldable pub catch_panic : Loop × W → (List ResultTx × Option Error) × W
  catch_panic (returned rs e, w) = ((rs, e), w)
  catch_panic (panicked rs p, w) = ((rs, none), w)
  catch_panic (resize i n rs, w) = ((rs, none), w)

  unfoldable pub send_batch : List Msg → W → (List ResultTx × Option Error) × W
  unfolding send_valid catch_panic validate_msgs
  send_batch [] w = (([], some no_messages), w)
  send_batch (m ∷ ms) w = catch_panic (send_valid (m ∷ ms) (validate_msgs (m ∷ ms)) w)
