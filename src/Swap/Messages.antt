-- ===== src/Swap/Messages.antt =====
-- modules/coinswap/types.go: the messages of the swap module and their own checks.
use plugchain_sdk_go.Prelude.{
  ℕ, ◌<◌, ◌≡◌, refl, sym, ap, ◌∙◌, Bool, false, not, ◌&&◌, arith, Split, inl, inr, List, [], ◌∷◌,
  length, Result, ok, err, panic, Error, ◌>>=◌, ◌>>◌, err_if, index_out_of_range, invalid_coin_set,
  identical_coins, not_positive, small_offer,
}
use plugchain_sdk_go.Prelude.Integer.{pos}
use plugchain_sdk_go.Denom.{Denom, denom_eq}
use plugchain_sdk_go.Int
use plugchain_sdk_go.Dec
use plugchain_sdk_go.Dec.{Decimal}
use plugchain_sdk_go.CoinSet.{Coin, is_positive}
use plugchain_sdk_go.CoinSet.Sorted.{IsSorted}
use plugchain_sdk_go.Coin
use plugchain_sdk_go.Coin.{Coins, validate_coins}
use plugchain_sdk_go.Coin.Validate.{validate_coins_iff}

pub record MsgCreatePool : Type 0 where
  pub pool_creator_address : List ℕ
  pub pool_type_id : ℕ
  pub deposit_coins : Coins

pub record MsgDepositWithinBatch : Type 0 where
  pub depositor_address : List ℕ
  pub pool_id : ℕ
  pub deposit_coins : Coins

pub record MsgSwapWithinBatch : Type 0 where
  pub swap_requester_address : List ℕ
  pub pool_id : ℕ
  pub swap_type_id : ℕ
  pub offer_coin : Coin
  pub demand_coin_denom : Denom
  pub offer_coin_fee : Coin
  pub order_price : Decimal

pub record MsgWithdrawWithinBatch : Type 0 where
  pub withdrawer_address : List ℕ
  pub pool_id : ℕ
  pub pool_coin : Coin

pub data SwapMsg : Type 0 where
  create_pool : MsgCreatePool → SwapMsg
  deposit_within_batch : MsgDepositWithinBatch → SwapMsg
  swap_within_batch : MsgSwapWithinBatch → SwapMsg
  withdraw_within_batch : MsgWithdrawWithinBatch → SwapMsg

-- `if err := …; err != nil { return other }`
abbrev pub replaced : Error → Result (Unit {0}) → Result (Unit {0})
replaced other (ok done) = ok tt
replaced other (err e) = err other
replaced other (panic p) = panic p

-- `coins[0]` and `coins[1]`
abbrev pub first_two : Coins → Result (Coin × Coin)
first_two [] = panic index_out_of_range
first_two (c ∷ []) = panic index_out_of_range
first_two (c ∷ d ∷ cs) = ok (c, d)

-- `AccAddressFromBech32` is a parameter. Go's `==` on two coins compares their denominations and the
-- pointers to their amounts, and `shared` says whether the pointers are the same.
module _ (parse_address : List ℕ → Result (List ℕ)) (shared : Coin → Coin → Bool) where
  unfoldable pub validate_create_pool : MsgCreatePool → Result (Unit {0})
  unfolding validate_coins
  validate_create_pool msg =
      replaced invalid_coin_set (validate_coins msg.deposit_coins)
      >> (first_two msg.deposit_coins >>= λ coins.
          err_if (denom_eq coins.0.denom coins.1.denom && shared coins.0 coins.1) identical_coins
          >> (parse_address msg.pool_creator_address >>= λ addr. ok tt))

  unfoldable pub validate_deposit : MsgDepositWithinBatch → Result (Unit {0})
  unfolding validate_coins Coin.is_all_positive
  validate_deposit msg =
      replaced invalid_coin_set (validate_coins msg.deposit_coins)
      >> (first_two msg.deposit_coins >>= λ coins.
          err_if (denom_eq coins.0.denom coins.1.denom && shared coins.0 coins.1) identical_coins
          >> (err_if (not (Coin.is_all_positive msg.deposit_coins)) not_positive
              >> (parse_address msg.depositor_address >>= λ addr. ok tt)))

  unfoldable pub validate_swap : MsgSwapWithinBatch → Result (Unit {0})
  unfolding Coin.validate Dec.is_positive
  validate_swap msg = parse_address msg.swap_requester_address >>= λ addr.
      Coin.validate msg.offer_coin.denom msg.offer_coin.amount
      >> (err_if (not (is_positive msg.offer_coin)) not_positive
          >> (err_if (not (Dec.is_positive msg.order_price)) not_positive
              >> err_if (not (Int.gte msg.offer_coin.amount (pos 100))) small_offer))

  unfoldable pub validate_withdraw : MsgWithdrawWithinBatch → Result (Unit {0})
  unfolding Coin.validate
  validate_withdraw msg = parse_address msg.withdrawer_address >>= λ addr.
      Coin.validate msg.pool_coin.denom msg.pool_coin.amount
      >> err_if (not (is_positive msg.pool_coin)) not_positive

  -- Two coins in their order have different denominations.
  apart : (c d : Coin) (cs : Coins) → IsSorted (c ∷ d ∷ cs) → denom_eq c.denom d.denom ≡ false
  apart c d cs ((o, _), _) = rw o

  create_pool_cases :
      (msg : MsgCreatePool) (cs : Coins)
      → msg.deposit_coins ≡ cs
      → validate_coins msg.deposit_coins ≡ ok tt
      → Split
          (length msg.deposit_coins < 2)
          (validate_create_pool msg ≡ panic index_out_of_range)
          (validate_create_pool msg ≡ (parse_address msg.pool_creator_address >>= λ addr. ok tt))
  unfolding validate_create_pool
  create_pool_cases msg [] e h = inl (rw e (omega arith), rw (h, e) refl)
  create_pool_cases msg (c ∷ []) e h = inl (rw e (omega arith), rw (h, e) refl)
  create_pool_cases msg (c ∷ d ∷ cs) e h =
      let valid : validate_coins (c ∷ d ∷ cs) ≡ ok tt = ap validate_coins (sym e) ∙ h in
      let other = apart c d cs ((validate_coins_iff (c ∷ d ∷ cs)).0 valid).0 in
      let many : ¬ (length msg.deposit_coins < 2) = rw e (λ less. absurd (omega (arith, less))) in
      inr (many, rw (h, e, other) refl)

  -- A pool message with valid coins panics if there are fewer than two, and is otherwise
  -- accepted if its address parses: the test for identical coins never refuses it.
  pub validate_create_pool_lem :
      (msg : MsgCreatePool)
      → validate_coins msg.deposit_coins ≡ ok tt
      → Split
          (length msg.deposit_coins < 2)
          (validate_create_pool msg ≡ panic index_out_of_range)
          (validate_create_pool msg ≡ (parse_address msg.pool_creator_address >>= λ addr. ok tt))
  validate_create_pool_lem msg h = create_pool_cases msg msg.deposit_coins refl h
