-- ===== src/Client/Prepared.antt =====
-- `prepare` of modules/base_client.go, and the calls behind it, over services that answer.
use plugchain_sdk_go.Client.Serves.{
  Succeeds, Ends, continue-Ends, Any, IsName, IsNumbers, Converts, IsToken, used_fee, HasToken,
  Serves, IsPrepared,
}
use plugchain_sdk_go.Prelude.{
  ℕ, refl, sym, ap, Bool, true, false, Bool-cases, inl, inr, not, ◌&&◌, ◌==◌, if◌then◌else◌, List,
  [], ◌∷◌, ◌++◌, length, All, Option, none, some,
}
use mathlib.Core.Path.{subst}
use plugchain_sdk_go.Denom.{to_lower}
use plugchain_sdk_go.CoinSet.{Coin}
use plugchain_sdk_go.DecCoin.{DecCoin, DecCoins, is_valid_dec_coins}
use plugchain_sdk_go.Client.{
  continue, Entry, address, account_info, token, BaseTx, ClientConfig, Services,
}
use plugchain_sdk_go.Client.Cache.{
  prefix_key, next_sequence, cache_set_with_expire, save_account, refresh, account_of,
  query_and_refresh_account, find_address, parsed_address, address_of, query_address,
}
use plugchain_sdk_go.Client.Tokens.{answer, token_of, query_token, min_coin_loop, to_min_coin}
use plugchain_sdk_go.Client.Factory.{new_factory}
use plugchain_sdk_go.Client.Prepare.{
  base_factory, must_fees, fees_for, with_options, with_account, prepare_temp, account_numbers,
  prepare,
}

module _ {W Msg : Type 0} (node : Services W Msg) (cfg : ClientConfig) (base_tx : BaseTx)
    (Good : W → Type 0) (serves : Serves node cfg base_tx Good) where
  find_address-Succeeds : Succeeds Good Any (find_address node cfg base_tx.from_ base_tx.password)
  unfolding find_address
  find_address-Succeeds w g =
      let (info, w1, e, g1, kept) = serves.key_found w g in (info.1, _, ap (continue _) e, tt, kept)

  address_of-Succeeds :
      (found : Option Entry) (w : W)
      → IsName node cfg base_tx Good found
      → Good w
      → Ends Good Any (address_of node cfg base_tx.from_ base_tx.password (found, w))
  unfolding address_of parsed_address
  address_of-Succeeds none w h g = find_address-Succeeds w g
  address_of-Succeeds (some (address a)) w (addr, e) g =
      (addr, w, ap (λ r. parsed_address node cfg base_tx.from_ base_tx.password r w) e, tt, g)
  address_of-Succeeds (some (account_info n s)) w h g = elim h [ ]
  address_of-Succeeds (some (token t)) w h g = elim h [ ]

  query_address-Succeeds : Succeeds Good Any (query_address node cfg base_tx.from_ base_tx.password)
  unfolding query_address
  query_address-Succeeds w g =
      let (kind, g1) = serves.name_found w g in address_of-Succeeds _ _ kind g1

  refresh-Succeeds :
      (addr : List ℕ) → Succeeds Good Any (refresh node cfg (node.address_string addr))
  unfolding refresh save_account
  refresh-Succeeds addr w g =
      let (account, w1, e, here, g1) = serves.account_answered addr w g in
      let kept = serves.numbers_saved addr account.account_number account.sequence w1 g1 in
      (
        account,
        _,
        ap (continue _) e,
        tt,
        subst
            (λ a.
              Good
                (cache_set_with_expire node cfg (prefix_key a)
                  (account_info account.account_number account.sequence) w1).1)
            (sym here) kept,
      )

  account_of-Succeeds :
      (addr : List ℕ) (found : Option Entry) (w : W)
      → IsNumbers node cfg base_tx Good found
      → Good w
      → Ends Good Any (account_of node cfg (node.address_string addr) (found, w))
  unfolding account_of save_account
  account_of-Succeeds addr none w h g = refresh-Succeeds addr w g
  account_of-Succeeds addr (some (account_info n s)) w h g =
      (_, _, refl, tt, serves.numbers_saved addr n (next_sequence s) w g)
  account_of-Succeeds addr (some (address a)) w h g = elim h [ ]
  account_of-Succeeds addr (some (token t)) w h g = elim h [ ]

  query_and_refresh_account-Succeeds :
      (addr : List ℕ)
      → Succeeds Good Any (query_and_refresh_account node cfg (node.address_string addr))
  unfolding query_and_refresh_account
  query_and_refresh_account-Succeeds addr w g =
      let (kind, g1) = serves.numbers_found addr w g in account_of-Succeeds addr _ _ kind g1

  account_numbers-Succeeds :
      (addr : List ℕ)
      → Succeeds Good Any (account_numbers node cfg base_tx (node.address_string addr))
  unfolding account_numbers
  account_numbers-Succeeds addr w g =
      elim (Bool-cases (not (base_tx.account_number == 0) && not (base_tx.sequence == 0))) [
        | inl t ↦ rw t (_, w, refl, tt, g)
        | inr t ↦ rw t (
            continue-Ends Good Any Any _ _ (query_and_refresh_account-Succeeds addr w g)
              (λ account done w1 g1. (_, w1, refl, tt, g1)))
      ]

  token_of-Succeeds :
      (coin : DecCoin) (found : Option Entry) (w : W)
      → HasToken node cfg base_tx Good coin
      → IsToken node cfg base_tx Good coin found
      → Good w
      → Ends Good
          (Converts node cfg base_tx Good coin)
          (token_of node cfg (to_lower coin.denom) (found, w))
  unfolding token_of answer
  token_of-Succeeds coin none w (cached, asked) h g =
      let (t, w1, e, converts, g1) = asked w g in (t, _, ap (answer node cfg) e, converts, g1)
  token_of-Succeeds coin (some (token t)) w has h g = (t, w, refl, h, g)
  token_of-Succeeds coin (some (address a)) w has h g = elim h [ ]
  token_of-Succeeds coin (some (account_info n s)) w has h g = elim h [ ]

  query_token-Succeeds :
      (coin : DecCoin)
      → HasToken node cfg base_tx Good coin
      → Succeeds Good (Converts node cfg base_tx Good coin) (query_token node cfg coin.denom)
  unfolding query_token
  query_token-Succeeds coin (cached, asked) w g =
      let (kind, g1) = cached w g in token_of-Succeeds coin _ _ (cached, asked) kind g1

  min_coin_loop-Succeeds :
      (coins : DecCoins) (dst : List Coin)
      → All (HasToken node cfg base_tx Good) coins
      → Succeeds Good Any (min_coin_loop node cfg coins dst)
  unfolding min_coin_loop
  min_coin_loop-Succeeds [] dst all w g = (dst, w, refl, tt, g)
  min_coin_loop-Succeeds (coin ∷ coins) dst (has, all) w g =
      continue-Ends Good (Converts node cfg base_tx Good coin) Any _ _
        (query_token-Succeeds coin has w g)
        (λ t converts w1 g1.
          let (c, e) = converts in rw e (min_coin_loop-Succeeds coins (dst ++ c ∷ []) all w1 g1))

  to_min_coin-Succeeds : Succeeds Good Any (to_min_coin node cfg (used_fee node cfg base_tx Good))
  unfolding to_min_coin
  to_min_coin-Succeeds w g =
      continue-Ends Good Any Any _ _
        (min_coin_loop-Succeeds (used_fee node cfg base_tx Good) [] serves.fee_known w g)
        (λ dst done w1 g1. (_, w1, refl, tt, g1))

  chosen-Ends :
      (b : Bool)
      → Succeeds Good Any (to_min_coin node cfg (if b then base_tx.fee else cfg.fee))
      → (w : W) → Good w
      → Ends Good Any (
          if b
          then to_min_coin node cfg base_tx.fee w
          else must_fees node cfg (to_min_coin node cfg cfg.fee w))
  chosen-Ends true all w g = all w g
  chosen-Ends false all w g =
      let (coins, w1, e, _, g1) = all w g in (coins, w1, ap (must_fees node cfg) e, tt, g1)

  fees_for-Succeeds : Succeeds Good Any (fees_for node cfg base_tx)
  unfolding fees_for
  fees_for-Succeeds =
      chosen-Ends (not (length base_tx.fee == 0) && is_valid_dec_coins base_tx.fee)
        to_min_coin-Succeeds

  prepare_temp-Succeeds :
      (addr : List ℕ) (number seq : ℕ)
      → Succeeds Good
          (IsPrepared node cfg base_tx Good)
          (prepare_temp node cfg addr number seq base_tx)
  unfolding prepare_temp with_options with_account base_factory new_factory
  prepare_temp-Succeeds addr number seq w g =
      continue-Ends Good Any (IsPrepared node cfg base_tx Good) _ _ (fees_for-Succeeds w g)
        (λ fees done w1 g1. (_, w1, refl, (refl, refl, refl, refl, refl), g1))

  pub prepare-Succeeds : Succeeds Good (IsPrepared node cfg base_tx Good) (prepare node cfg base_tx)
  unfolding prepare
  prepare-Succeeds w g =
      continue-Ends Good Any (IsPrepared node cfg base_tx Good) _ _ (query_address-Succeeds w g)
        (λ addr done w1 g1.
          continue-Ends Good Any (IsPrepared node cfg base_tx Good) _ _
            (account_numbers-Succeeds addr w1 g1)
            (λ numbers done1. prepare_temp-Succeeds (node.address_string addr) numbers.0 numbers.1))
