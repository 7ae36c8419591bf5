-- ===== src/Client/Tokens.antt =====
-- modules/token.go: the cache of tokens, and the conversion of coins to their smallest unit.
use plugchain_sdk_go.Prelude.{
  ℕ, List, [], ◌∷◌, ◌++◌, Option, none, some, Result, ok, err, panic, type_assertion, no_connection,
}
use plugchain_sdk_go.Denom.{Denom, to_lower}
use plugchain_sdk_go.CoinSet
use plugchain_sdk_go.CoinSet.{Coin}
use plugchain_sdk_go.DecCoin.{DecCoins}
use plugchain_sdk_go.CoinType.{Token, get_coin_type, convert_to_min_coin}
use plugchain_sdk_go.Client.{
  Io, ◌>>=◌, pure, Entry, address, account_info, token, ClientConfig, Services, TokenReply,
}
use plugchain_sdk_go.Client.Cache.{cache_get, cache_set}

-- "token:", and `tokenQuery.prefixKey`
abbrev pub token_prefix : List ℕ
token_prefix = b't' ∷ b'o' ∷ b'k' ∷ b'e' ∷ b'n' ∷ b':' ∷ []

unfoldable pub token_key : Denom → List ℕ
token_key symbol = token_prefix ++ symbol

-- `sdk.Token{}`
abbrev pub no_token : Token
no_token = record { symbol = []; name = []; scale = 0; min_unit = [] }

module _ {W Msg : Type 0} (node : Services W Msg) (cfg : ClientConfig) where
  -- A failure to save a token is only logged.
  unfoldable pub save_tokens : List Token → W → W
  unfolding cache_set token_key
  save_tokens [] w = w
  save_tokens (t ∷ ts) w =
      let (_, w1) = cache_set node cfg (token_key t.symbol) (token t) w in
      let (_, w2) = cache_set node cfg (token_key t.min_unit) (token t) w1 in save_tokens ts w2

  -- A query that fails gives the zero token and no error.
  unfoldable pub answer : TokenReply × W → Result Token × W
  unfolding save_tokens
  answer (TokenReply.no_connection, w) = (err no_connection, w)
  answer (TokenReply.query_failed, w) = (ok no_token, w)
  answer (TokenReply.not_unpacked e, w) = (err e, w)
  answer (TokenReply.found t, w) = (ok t, save_tokens (t ∷ []) w)

  unfoldable pub token_of : Denom → Option Entry × W → Result Token × W
  unfolding answer
  token_of denom (none, w) = answer (node.token_query denom w)
  token_of denom (some (token t), w) = (ok t, w)
  token_of denom (some (address a), w) = (panic type_assertion, w)
  token_of denom (some (account_info n s), w) = (panic type_assertion, w)

  unfoldable pub query_token : Denom → Io W Token
  unfolding token_of cache_get token_key
  query_token denom w =
      token_of (to_lower denom) (cache_get node cfg (token_key (to_lower denom)) w)

  -- The loop of `ToMinCoin`, with `dstCoins`.
  unfoldable pub min_coin_loop : DecCoins → List Coin → Io W (List Coin)
  unfolding query_token
  min_coin_loop [] dst = pure (ok dst)
  min_coin_loop (coin ∷ coins) dst = query_token coin.denom >>= λ t.
      pure (convert_to_min_coin (get_coin_type t) coin) >>= λ min_coin.
      min_coin_loop coins (dst ++ min_coin ∷ [])

  unfoldable pub to_min_coin : DecCoins → Io W (List Coin)
  unfolding min_coin_loop
  to_min_coin coins = min_coin_loop coins [] >>= λ dst. pure (ok (CoinSet.sort dst))
