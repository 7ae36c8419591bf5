-- ===== src/Client.antt =====
-- The client that builds, signs and sends transactions: modules/base_client.go, modules/account.go,
-- modules/token.go, modules/tx.go, client/tx/factory.go, utils/cache/cache.go, utils/commom.go.
-- This file has their data, the services that they call, and the monad of their calls.
pub mod Cache
pub mod Returns
pub mod Tokens
pub mod Factory
pub mod Sign
pub mod Prepare
pub mod Broadcast
pub mod Batch
pub mod Sequence
pub mod Segments
pub mod Fits
pub mod Delivery
pub mod Serves
pub mod Prepared
pub mod Built
pub mod Results
pub mod Accepted
use plugchain_sdk_go.Prelude.{
  ℕ, ◌≡◌, Bool, true, false, List, [], ◌∷◌, Option, none, some, Result, ok, err, panic, Panic,
  Error, if◌then◌else◌,
}
use plugchain_sdk_go.Prelude.Integer.{ℤ}
use plugchain_sdk_go.CoinSet.{Coin}
use plugchain_sdk_go.DecCoin.{DecCoins}
use plugchain_sdk_go.CoinType.{Token}
use plugchain_sdk_go.Events.{StringEvent}

-- A call that works on the state of the services, and how it ends.
abbrev pub Io : Type 0 → Type 0 → Type 0
Io W A = W → Result A × W

module _ {W A B : Type 0} where
  abbrev pub continue : (A → Io W B) → Result A × W → Result B × W
  continue f (ok a, w) = f a w
  continue f (err e, w) = (err e, w)
  continue f (panic p, w) = (panic p, w)

  infixl 5 ◌>>=◌
  abbrev pub ◌>>=◌ : Io W A → (A → Io W B) → Io W B
  m >>= f = λ w. continue f (m w)

module _ {W : Type 0} where
  infixl 5 ◌>>◌
  abbrev pub ◌>>◌ : {B : Type 0} → Io W (Unit {0}) → Io W B → Io W B
  m >> n = m >>= λ done. n

  -- A call that leaves the services alone.
  abbrev pub pure : {A : Type 0} → Result A → Io W A
  pure r w = (r, w)

-- What the cache holds: the address of a key's name, the numbers of an account (`accountInfo`), a token.
pub data Entry : Type 0 where
  address : List ℕ → Entry
  account_info : ℕ → ℕ → Entry
  token : Token → Entry

pub record BaseAccount : Type 0 where
  pub address : List ℕ
  pub coins : List Coin
  pub pub_key : List ℕ
  pub account_number : ℕ
  pub sequence : ℕ

pub record BaseTx : Type 0 where
  pub from_ : List ℕ
  pub password : List ℕ
  pub gas : ℕ
  pub fee : DecCoins
  pub memo : List ℕ
  pub mode : List ℕ
  pub simulate : Bool
  pub account_number : ℕ
  pub sequence : ℕ

-- The fields of `ClientConfig` that the modelled calls read.
pub record ClientConfig : Type 0 where
  pub chain_id : List ℕ
  pub gas : ℕ
  pub fee : DecCoins
  pub mode : List ℕ
  pub cached : Bool

pub record ResultTx : Type 0 where
  pub gas_wanted : ℤ
  pub gas_used : ℤ
  pub events : List StringEvent
  pub hash : List ℕ
  pub height : ℤ

-- `SignerData`, and the signature that is set on a transaction.
pub record SignerData : Type 0 where
  pub chain_id : List ℕ
  pub account_number : ℕ
  pub sequence : ℕ

pub record Signature : Type 0 where
  pub pub_key : List ℕ
  pub sign_mode : ℕ
  pub signature : Option (List ℕ)
  pub sequence : ℕ

-- What a transaction builder has been given.
pub record TxBuilder (Msg : Type 0) : Type 0 where
  pub msgs : List Msg
  pub memo : List ℕ
  pub fee_amount : List Coin
  pub gas_limit : ℕ
  pub signatures : List Signature

-- Tendermint's answers to a broadcast; an event is its type and its attributes.
pub record TxResponse : Type 0 where
  pub code : ℕ
  pub codespace : List ℕ
  pub log : List ℕ
  pub gas_wanted : ℤ
  pub gas_used : ℤ
  pub events : List (List ℕ × List (List ℕ × List ℕ))

pub record CommitReply : Type 0 where
  pub check_tx : TxResponse
  pub deliver_tx : TxResponse
  pub hash : List ℕ
  pub height : ℤ

pub record SyncReply : Type 0 where
  pub code : ℕ
  pub log : List ℕ
  pub hash : List ℕ

-- How the query for a token over gRPC ends.
pub data TokenReply : Type 0 where
  no_connection query_failed : TokenReply
  not_unpacked : Error → TokenReply
  found : Token → TokenReply

-- What the client calls outside its own code; `W` is all of the state that those calls work on.
pub record Services (W Msg : Type 0) : Type 0 where
  -- gcache behind `LRU`: a missing or expired key gives `none`; a write says whether it succeeded.
  pub get : List ℕ → W → Option Entry × W
  pub set : List ℕ → Entry → W → Bool × W
  pub set_with_expire : List ℕ → Entry → W → Bool × W
  pub remove : List ℕ → W → Bool × W
  -- gRPC: the account with its balances, and a token.
  pub query_account : List ℕ → Io W BaseAccount
  pub token_query : List ℕ → W → TokenReply × W
  -- The key store: `Find` gives the public key and the address, `Sign` the signature of some bytes.
  pub find : List ℕ → List ℕ → Io W (List ℕ × List ℕ)
  pub sign : List ℕ → List ℕ → List ℕ → Io W (List ℕ)
  -- Bech32, the sign mode handler, the transaction encoders, the messages' own checks.
  pub acc_address_from_bech32 : List ℕ → Result (List ℕ)
  pub address_string : List ℕ → List ℕ
  pub default_sign_mode : ℕ
  pub get_sign_bytes : ℕ → SignerData → TxBuilder Msg → Result (List ℕ)
  pub tx_encoder : TxBuilder Msg → Result (List ℕ)
  pub tx_json_encoder : TxBuilder Msg → Result (List ℕ)
  pub validate_basic : Msg → Result (Unit {0})
  pub new_any_with_value : Msg → Result (Unit {0})
  -- Tendermint's RPC; a simulation gives the gas, already adjusted.
  pub estimate_tx_gas : List ℕ → Io W ℕ
  pub broadcast_tx_commit : List ℕ → Io W CommitReply
  pub broadcast_tx_sync : List ℕ → Io W SyncReply
  pub broadcast_tx_async : List ℕ → Io W (List ℕ)
