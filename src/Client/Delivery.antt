-- ===== src/Client/Delivery.antt =====
-- `SendBatch` of modules/base_client.go: which transactions reach the node, and what is returned.
use plugchain_sdk_go.Prelude.{
  ℕ, zero, suc, ◌+◌, ◌≡◌, refl, sym, ◌∙◌, inl, inr, Bool-cases, if-true, if-false, List, [], ◌∷◌,
  ◌++◌, append-nil, append_assoc, none, Error,
}
use plugchain_sdk_go.Client.{ClientConfig, BaseTx, ResultTx, Services}
use plugchain_sdk_go.Client.Batch.{
  Attempt, accepted, failed, not_built, oversized, crashed, Outcome, sent, refused, too_large, died,
  Loop, returned, attempt, forget, settle, send_one, go_on, send_loop,
}

module _ {W Msg : Type 0} (node : Services W Msg) (cfg : ClientConfig) (base_tx : BaseTx) where
  -- The segments `mss` are delivered in this order, each by the first attempt that the node accepts, with
  -- the results `rs`. Of the `n` failures that are allowed, `m` are left; the client forgets the
  -- account's numbers after each.
  pub data Delivers : W → ℕ → List (List Msg) → List ResultTx → ℕ → W → Type 0 where
    nothing : {w : W} {n : ℕ} → Delivers w n [] [] n w
    again :
        {w w1 w' : W} {n m : ℕ} {ms : List Msg} {mss : List (List Msg)} {rs : List ResultTx}
        {addr : List ℕ} {e : Error}
        → attempt node cfg base_tx ms w ≡ (failed addr e, w1)
        → Delivers (forget node cfg base_tx addr w1) n (ms ∷ mss) rs m w'
        → Delivers w (suc n) (ms ∷ mss) rs m w'
    accept :
        {w w1 w' : W} {n m : ℕ} {ms : List Msg} {mss : List (List Msg)} {rs : List ResultTx}
        {r : ResultTx}
        → attempt node cfg base_tx ms w ≡ (accepted r, w1)
        → Delivers w1 n mss rs m w'
        → Delivers w n (ms ∷ mss) (r ∷ rs) m w'

  -- The end of an attempt, when its segment is sent in the end and the others behind it.
  module _ {w1 w' : W} {k m : ℕ} {mss : List (List Msg)} {rs : List ResultTx} {r : ResultTx}
      (d : Delivers w1 k mss rs m w') where
    settle-Delivers :
        (w : W) (n : ℕ) (ms : List Msg) (next : Error → W → Outcome × W)
        → ((addr : List ℕ) (e : Error) (w2 : W)
            → attempt node cfg base_tx ms w ≡ (failed addr e, w2)
            → next e (forget node cfg base_tx addr w2) ≡ (sent k r, w1)
            → Delivers w n (ms ∷ mss) (r ∷ rs) m w')
        → (a : Attempt × W) → attempt node cfg base_tx ms w ≡ a
        → settle node cfg base_tx n next a ≡ (sent k r, w1)
        → Delivers w n (ms ∷ mss) (r ∷ rs) m w'
    settle-Delivers w n ms next retry (accepted res, w2) e h =
        let same_n : n ≡ k = cc in
        let same_r : res ≡ r = cc in
        let same_w : w2 ≡ w1 = cc in
        let sent_now : attempt node cfg base_tx ms w ≡ (accepted r, w1) =
          rw (← same_r, ← same_w) e in
        accept sent_now (rw same_n d)
    settle-Delivers w n ms next retry (failed addr e2, w2) e h = elim (Bool-cases cfg.cached) [
      | inl t ↦ retry addr e2 w2 e (if-true cfg.cached _ _ t h)
      | inr t ↦ absurd (cc (if-false cfg.cached _ _ t h))
    ]
    settle-Delivers w n ms next retry (not_built e2, w2) e h = cc
    settle-Delivers w n ms next retry (oversized addr, w2) e h = cc
    settle-Delivers w n ms next retry (crashed p, w2) e h = cc

    send_one-Delivers :
        (n : ℕ) (ms : List Msg) (w : W)
        → send_one node cfg base_tx n ms w ≡ (sent k r, w1)
        → Delivers w n (ms ∷ mss) (r ∷ rs) m w'
    unfolding send_one
    send_one-Delivers zero ms w h =
        settle-Delivers w 0 ms (λ e after. (refused e, after)) (λ addr e w2 a g. absurd (cc g)) _
          refl h
    send_one-Delivers (suc n) ms w h =
        settle-Delivers w (suc n) ms (λ e after. send_one node cfg base_tx n ms after)
          (λ addr e w2 a g. again a (send_one-Delivers n ms (forget node cfg base_tx addr w2) g)) _
          refl h

  -- What is known of a loop that came to its end.
  abbrev pub Ended : List (List Msg) → ℕ → List ResultTx → List ResultTx → W → W → Type 0
  Ended mss n rs0 rs w w' =
      (new : List ResultTx) × (m : ℕ) × (rs ≡ rs0 ++ new) × Delivers w n mss new m w'

  go_on-Ended :
      (ms : List Msg) (mss : List (List Msg)) (i n : ℕ) (rs0 rs : List ResultTx) (w w' : W)
      (rest : ℕ → List ResultTx → W → Loop × W)
      → ((k : ℕ) (rs1 : List ResultTx) (w1 : W)
          → rest k rs1 w1 ≡ (returned rs none, w')
          → Ended mss k rs1 rs w1 w')
      → (o : Outcome × W) → send_one node cfg base_tx n ms w ≡ o
      → go_on node cfg base_tx i rs0 rest o ≡ (returned rs none, w')
      → Ended (ms ∷ mss) n rs0 rs w w'
  go_on-Ended ms mss i n rs0 rs w w' rest step (sent k r, w1) e h =
      let (new, m, join, d) = step k (rs0 ++ r ∷ []) w1 h in
      (r ∷ new, m, join ∙ append_assoc rs0 (r ∷ []) new, send_one-Delivers d n ms w e)
  go_on-Ended ms mss i n rs0 rs w w' rest step (refused e2, w1) e h = cc
  go_on-Ended ms mss i n rs0 rs w w' rest step (too_large k, w1) e h = cc
  go_on-Ended ms mss i n rs0 rs w w' rest step (died p, w1) e h = cc

  pub send_loop-Ended :
      (mss : List (List Msg)) (i n : ℕ) (rs0 rs : List ResultTx) (w w' : W)
      → send_loop node cfg base_tx mss i n rs0 w ≡ (returned rs none, w')
      → Ended mss n rs0 rs w w'
  unfolding send_loop
  send_loop-Ended [] i n rs0 rs w w' h =
      let same_r : rs0 ≡ rs = cc in
      let same_w : w ≡ w' = cc in
      let stay : Delivers w n [] [] n w = nothing in
      ([], n, sym same_r ∙ sym (append-nil rs0), (rw (← same_w) stay))
  send_loop-Ended (ms ∷ mss) i n rs0 rs w w' h =
      go_on-Ended ms mss i n rs0 rs w w'
        (λ k rs1 after. send_loop node cfg base_tx mss (i + 1) k rs1 after)
        (λ k rs1 w1 g. send_loop-Ended mss (i + 1) k rs1 rs w1 w' g) _ refl h
