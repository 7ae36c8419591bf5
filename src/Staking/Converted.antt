-- ===== src/Staking/Converted.antt =====
-- `ToMinCoin` of modules/token.go under the calls of modules/staking/staking.go: the first coin of what
-- it returns is there.
use plugchain_sdk_go.Prelude.{
  ℕ, ◌+◌, ◌≡◌, refl, ◌∙◌, arith, List, [], ◌∷◌, ◌++◌, length, length-append, ok,
}
use plugchain_sdk_go.CoinSet.{Coin}
use plugchain_sdk_go.CoinSet.Sort.{length-sort}
use plugchain_sdk_go.CoinType.{Token, get_coin_type, convert_to_min_coin}
use plugchain_sdk_go.DecCoin.{DecCoin, DecCoins}
use plugchain_sdk_go.Client.{Io, ◌>>=◌, pure, BaseTx, ClientConfig, Services}
use plugchain_sdk_go.Client.Cache.{query_address}
use plugchain_sdk_go.Client.Broadcast.{build_and_send}
use plugchain_sdk_go.Client.Tokens.{query_token, min_coin_loop, to_min_coin}
use plugchain_sdk_go.Client.Returns.{Returns, continue-Returns, anything}
use plugchain_sdk_go.Staking.{
  StakingMsg, delegating, DelegateRequest, first_coin, sender_and_coin, delegate,
}

module _ {W Msg : Type 0} (node : Services W Msg) (cfg : ClientConfig) where
  abbrev HasLength : ℕ → List Coin → Type 0
  HasLength n cs = length cs ≡ n

  -- The rest of a round of the loop, behind the conversion.
  abbrev behind_coin : DecCoins → List Coin → Coin → Io W (List Coin)
  behind_coin coins dst c = min_coin_loop node cfg coins (dst ++ c ∷ [])

  abbrev behind_token : DecCoin → DecCoins → List Coin → Token → Io W (List Coin)
  behind_token coin coins dst t =
      pure (convert_to_min_coin (get_coin_type t) coin) >>= behind_coin coins dst

  min_coin_loop-HasLength :
      (coins : DecCoins) (dst : List Coin) (w : W)
      → Returns (HasLength (length coins + length dst)) (min_coin_loop node cfg coins dst w)
  unfolding min_coin_loop
  min_coin_loop-HasLength [] dst w = let same : length dst ≡ 0 + length dst = omega arith in same
  min_coin_loop-HasLength (coin ∷ coins) dst w =
      let n : ℕ = length (coin ∷ coins) + length dst in
      let looped : (c : Coin) (w2 : W) → Returns (HasLength n) (behind_coin coins dst c w2) =
        (λ c w2.
          let longer : length coins + length (dst ++ c ∷ []) ≡ n =
            rw (length-append dst (c ∷ [])) (omega arith) in
          rw (← longer) (min_coin_loop-HasLength coins (dst ++ c ∷ []) w2)) in
      let converted : (t : Token) (w1 : W)
          → Returns (HasLength n) (behind_token coin coins dst t w1) =
        (λ t w1.
          continue-Returns (λ c. Unit {0}) (HasLength n) (behind_coin coins dst)
            (convert_to_min_coin (get_coin_type t) coin, w1) (anything _)
            (λ c w2 _. looped c w2)) in
      continue-Returns (λ t. Unit {0}) (HasLength n) (behind_token coin coins dst)
        (query_token node cfg coin.denom w) (anything _) (λ t w1 _. converted t w1)

  -- What `ToMinCoin` returns has as many coins as were given.
  pub to_min_coin-HasLength :
      (coins : DecCoins) (w : W)
      → Returns (λ dst. length dst ≡ length coins) (to_min_coin node cfg coins w)
  unfolding to_min_coin
  to_min_coin-HasLength coins w =
      continue-Returns (HasLength (length coins + 0)) _ _ _ (min_coin_loop-HasLength coins [] w)
        (λ dst w1 e. length-sort dst ∙ e ∙ omega arith)

-- A list of one coin is its first coin.
one_coin :
    (coins : List Coin)
    → length coins ≡ 1
    → (c : Coin) × (coins ≡ c ∷ []) × (first_coin coins ≡ ok c)
one_coin [] h = absurd (omega (arith, h))
one_coin (c ∷ []) h = (c, refl, refl)
one_coin (c ∷ d ∷ cs) h = absurd (omega (arith, h))

module _ {W : Type 0} (node : Services W StakingMsg) (cfg : ClientConfig) where
  sender_and_coin_lem :
      (amount : DecCoin) (base_tx : BaseTx) (addr : List ℕ) (coins : List Coin) (w w1 w2 : W)
      → query_address node cfg base_tx.from_ base_tx.password w ≡ (ok addr, w1)
      → to_min_coin node cfg (amount ∷ []) w1 ≡ (ok coins, w2)
      → (c : Coin) × (coins ≡ c ∷ [])
        × (sender_and_coin node cfg amount base_tx w ≡ (ok (node.address_string addr, c), w2))
  unfolding sender_and_coin
  sender_and_coin_lem amount base_tx addr coins w w1 w2 found converted =
      let long : Returns (λ dst. length dst ≡ 1) (to_min_coin node cfg (amount ∷ []) w1) =
        to_min_coin-HasLength node cfg (amount ∷ []) w1 in
      let one : length coins ≡ 1 = rw converted at long in
      let (c, all, first) = one_coin coins one in (c, all, rw (found, converted, first) refl)

  -- Where the sender is found and the amount converts, it converts to one coin, and Delegate
  -- sends the message that delegates this coin from the sender to the validator; coins[0] does
  -- not panic.
  pub delegate_lem :
      (request : DelegateRequest) (base_tx : BaseTx) (addr : List ℕ) (coins : List Coin)
      (w w1 w2 : W)
      → query_address node cfg base_tx.from_ base_tx.password w ≡ (ok addr, w1)
      → to_min_coin node cfg (request.amount ∷ []) w1 ≡ (ok coins, w2)
      → (c : Coin) × (coins ≡ c ∷ [])
        × (delegate node cfg request base_tx w
            ≡ build_and_send node cfg
                (delegating (record {
                  delegator_address = node.address_string addr;
                  validator_address = request.validator_addr;
                  amount = c;
                })
                  ∷ [])
                base_tx
                w2)
  unfolding delegate
  delegate_lem request base_tx addr coins w w1 w2 found converted =
      let (c, all, e) =
        sender_and_coin_lem request.amount base_tx addr coins w w1 w2 found converted in
      (c, all, rw e refl)
