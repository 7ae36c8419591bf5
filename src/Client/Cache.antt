-- ===== src/Client/Cache.antt =====
-- utils/cache/cache.go and modules/account.go: the cache of addresses and of account numbers.
use plugchain_sdk_go.Prelude.{
  ℕ, ◌+◌, ◌%◌, ◌^◌, Bool, true, false, List, [], ◌∷◌, ◌++◌, Option, none, some, Result, ok, err,
  panic, type_assertion, if◌then◌else◌,
}
use plugchain_sdk_go.Client.{
  Io, ◌>>=◌, Entry, address, account_info, token, BaseAccount, ClientConfig, Services,
}

-- "account:"
abbrev pub account_prefix : List ℕ
account_prefix = b'a' ∷ b'c' ∷ b'c' ∷ b'o' ∷ b'u' ∷ b'n' ∷ b't' ∷ b':' ∷ []

-- `accountQuery.prefixKey`
unfoldable pub prefix_key : List ℕ → List ℕ
prefix_key name = account_prefix ++ name

-- Sequence numbers are uint64.
abbrev pub next_sequence : ℕ → ℕ
next_sequence s = (s + 1) % 2 ^ 64

module _ {W Msg : Type 0} (node : Services W Msg) (cfg : ClientConfig) where
  -- The methods of `LRU`, which is enabled by the configuration.
  unfoldable pub cache_get : List ℕ → W → Option Entry × W
  cache_get key w = if cfg.cached then node.get key w else (none, w)

  unfoldable pub cache_set : List ℕ → Entry → W → Bool × W
  cache_set key value w = if cfg.cached then node.set key value w else (true, w)

  unfoldable pub cache_set_with_expire : List ℕ → Entry → W → Bool × W
  cache_set_with_expire key value w =
      if cfg.cached then node.set_with_expire key value w else (true, w)

  unfoldable pub cache_remove : List ℕ → W → Bool × W
  cache_remove key w = if cfg.cached then node.remove key w else (false, w)

  -- A failure to save the account is only logged.
  unfoldable pub save_account : BaseAccount → W → W
  unfolding cache_set_with_expire prefix_key
  save_account account w =
      (cache_set_with_expire (prefix_key account.address)
        (account_info account.account_number account.sequence) w).1

  unfoldable pub refresh : List ℕ → Io W BaseAccount
  unfolding save_account
  refresh addr = node.query_account addr >>= λ account w. (ok account, save_account account w)

  -- The account behind a lookup in the cache: its sequence is the one after that of the last use.
  unfoldable pub account_of : List ℕ → Option Entry × W → Result BaseAccount × W
  unfolding refresh save_account
  account_of addr (none, w) = refresh addr w
  account_of addr (some (account_info n s), w) =
      let account : BaseAccount = record {
        address = addr;
        coins = [];
        pub_key = [];
        account_number = n;
        sequence = next_sequence s;
      } in
      (ok account, save_account account w)
  account_of addr (some (address a), w) = (panic type_assertion, w)
  account_of addr (some (token t), w) = (panic type_assertion, w)

  unfoldable pub query_and_refresh_account : List ℕ → Io W BaseAccount
  unfolding account_of cache_get prefix_key
  query_and_refresh_account addr w = account_of addr (cache_get (prefix_key addr) w)

  unfoldable pub remove_cache : List ℕ → W → W
  unfolding cache_remove prefix_key
  remove_cache addr w = (cache_remove (prefix_key addr) w).1

  -- The address of a name that the cache does not have: it is found in the key store, and saved.
  unfoldable pub find_address : List ℕ → List ℕ → Io W (List ℕ)
  unfolding cache_set_with_expire prefix_key
  find_address name password = node.find name password >>= λ info w. (
    ok info.1,
    (cache_set_with_expire (prefix_key name) (address (node.address_string info.1)) w).1,
  )

  -- A cached address that does not parse is removed.
  unfoldable pub parsed_address : List ℕ → List ℕ → Result (List ℕ) → W → Result (List ℕ) × W
  unfolding find_address remove_cache
  parsed_address name password (ok addr) w = (ok addr, w)
  parsed_address name password (err e) w = find_address name password (remove_cache name w)
  parsed_address name password (panic p) w = (panic p, w)

  unfoldable pub address_of : List ℕ → List ℕ → Option Entry × W → Result (List ℕ) × W
  unfolding find_address parsed_address
  address_of name password (none, w) = find_address name password w
  address_of name password (some (address a), w) =
      parsed_address name password (node.acc_address_from_bech32 a) w
  address_of name password (some (account_info n s), w) = (panic type_assertion, w)
  address_of name password (some (token t), w) = (panic type_assertion, w)

  unfoldable pub query_address : List ℕ → List ℕ → Io W (List ℕ)
  unfolding address_of cache_get prefix_key
  query_address name password w = address_of name password (cache_get (prefix_key name) w)
