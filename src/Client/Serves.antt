-- ===== src/Client/Serves.antt =====
-- What the calls of modules/base_client.go, modules/account.go, modules/token.go and client/tx/factory.go
-- need of the services that they use, to build a transaction.
use plugchain_sdk_go.Prelude.{
  ℕ, ◌≡◌, sym, false, not, ◌&&◌, ltb, ◌==◌, if◌then◌else◌, List, [], ◌∷◌, length, All, Option, none,
  some, Result, ok,
}
use mathlib.Core.Path.{subst}
use plugchain_sdk_go.Denom.{to_lower}
use plugchain_sdk_go.CoinSet.{Coin}
use plugchain_sdk_go.DecCoin.{DecCoin, DecCoins, is_valid_dec_coins}
use plugchain_sdk_go.CoinType.{Token, get_coin_type, convert_to_min_coin}
use plugchain_sdk_go.Client.{
  Io, continue, Entry, address, account_info, token, BaseAccount, BaseTx, ClientConfig, SignerData,
  TxBuilder, Services, TokenReply,
}
use plugchain_sdk_go.Client.Cache.{prefix_key, cache_get, cache_set_with_expire}
use plugchain_sdk_go.Client.Tokens.{token_key, save_tokens}
use plugchain_sdk_go.Client.Factory.{Factory}

module _ {W : Type 0} (Good : W → Type 0) where
  -- A call that ended with a value with `P`, in a good state.
  abbrev pub Ends : {A : Type 0} → (A → Type 0) → Result A × W → Type 0
  Ends {A} P r = (a : A) × (w : W) × (r ≡ (ok a, w)) × P a × Good w

  abbrev pub Succeeds : {A : Type 0} → (A → Type 0) → Io W A → Type 0
  Succeeds P m = (w : W) → Good w → Ends P (m w)

  pub continue-Ends :
      {A B : Type 0} (P : A → Type 0) (Q : B → Type 0) (next : A → Io W B) (r : Result A × W)
      → Ends P r
      → ((a : A) → P a → Succeeds Q (next a))
      → Ends Q (continue next r)
  continue-Ends P Q next r (a, w, e, p, g) step =
      subst (λ x. Ends Q (continue next x)) (sym e) (step a p w g)

abbrev pub Any : {A : Type 0} → A → Type 0
Any a = Unit {0}

module _ {W Msg : Type 0} (node : Services W Msg) (cfg : ClientConfig) (base_tx : BaseTx)
    (Good : W → Type 0) where
  -- What the cache may have for the name of the sender, for an address, and for a coin of the fee.
  abbrev pub IsName : Option Entry → Type 0
  IsName none = Unit
  IsName (some (address a)) = (addr : List ℕ) × (node.acc_address_from_bech32 a ≡ ok addr)
  IsName (some (account_info n s)) = ⊥
  IsName (some (token t)) = ⊥

  abbrev pub IsNumbers : Option Entry → Type 0
  IsNumbers none = Unit
  IsNumbers (some (account_info n s)) = Unit
  IsNumbers (some (address a)) = ⊥
  IsNumbers (some (token t)) = ⊥

  abbrev pub Converts : DecCoin → Token → Type 0
  Converts coin t = (c : Coin) × (convert_to_min_coin (get_coin_type t) coin ≡ ok c)

  abbrev pub IsToken : DecCoin → Option Entry → Type 0
  IsToken coin none = Unit
  IsToken coin (some (token t)) = Converts coin t
  IsToken coin (some (address a)) = ⊥
  IsToken coin (some (account_info n s)) = ⊥

  abbrev pub Finds : List ℕ → (Option Entry → Type 0) → Type 0
  Finds key P =
      (w : W) → Good w → P (cache_get node cfg key w).0 × Good (cache_get node cfg key w).1

  -- The fee and the mode of the transaction, or the configured ones.
  abbrev pub used_fee : DecCoins
  used_fee =
      if not (length base_tx.fee == 0) && is_valid_dec_coins base_tx.fee
      then base_tx.fee
      else cfg.fee

  abbrev pub used_mode : List ℕ
  used_mode = if ltb 0 (length base_tx.mode) then base_tx.mode else cfg.mode

  -- The token of a coin is in the cache or on the chain, and converts the coin.
  abbrev pub HasToken : DecCoin → Type 0
  HasToken coin =
      Finds (token_key (to_lower coin.denom)) (IsToken coin)
      × ((w : W)
          → Good w
          → (t : Token) × (w1 : W) × (node.token_query (to_lower coin.denom) w
              ≡ (TokenReply.found t, w1))
            × Converts coin t
            × Good (save_tokens node cfg (t ∷ []) w1))

  -- Services that answer, in each state with `Good`, and keep to it: the cache has what the client put
  -- there, the key store has the sender's key and signs, the chain knows the account and the tokens of
  -- the fee, and the generated code packs and encodes.
  pub record Serves : Type 0 where
    pub chain_named : (length cfg.chain_id == 0) ≡ false
    pub name_found : Finds (prefix_key base_tx.from_) IsName
    pub numbers_found : (addr : List ℕ) → Finds (prefix_key (node.address_string addr)) IsNumbers
    pub key_found :
        (w : W)
        → Good w
        → (info : List ℕ × List ℕ) × (w1 : W) × (node.find base_tx.from_ base_tx.password w
            ≡ (ok info, w1))
          × Good w1
          × Good
              (cache_set_with_expire node cfg
                (prefix_key base_tx.from_)
                (address (node.address_string info.1))
                w1).1
    pub numbers_saved :
        (addr : List ℕ) (n s : ℕ) (w : W)
        → Good w
        → Good
            (cache_set_with_expire node cfg
              (prefix_key (node.address_string addr))
              (account_info n s)
              w).1
    pub account_answered :
        (addr : List ℕ)
        → Succeeds Good
            (λ (account : BaseAccount). account.address ≡ node.address_string addr)
            (node.query_account (node.address_string addr))
    pub fee_known : All HasToken used_fee
    pub bytes_made :
        (d : SignerData) (tx : TxBuilder Msg)
        → (bytes : List ℕ) × (node.get_sign_bytes node.default_sign_mode d tx ≡ ok bytes)
    pub bytes_signed :
        (bytes : List ℕ) → Succeeds Good Any (node.sign base_tx.from_ base_tx.password bytes)
    pub packed : (m : Msg) → node.new_any_with_value m ≡ ok tt
    pub encoded : (tx : TxBuilder Msg) → (bytes : List ℕ) × (node.tx_encoder tx ≡ ok bytes)

  -- What is known of a factory that `prepare` returns.
  abbrev pub IsPrepared : Factory → Type 0
  IsPrepared f =
      (f.password ≡ base_tx.password)
      × (f.chain_id ≡ cfg.chain_id)
      × (f.gas_prices ≡ [])
      × (f.sign_mode ≡ 0)
      × (f.mode ≡ used_mode)
