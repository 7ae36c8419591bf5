-- ===== src/Tests/Node.antt =====
-- A small node behind modules/base_client.go: a cache that is a list, a chain that knows every account,
-- and a key store that signs everything.
use plugchain_sdk_go.Prelude.{
  ℕ, ◌≡◌, refl, Bool, true, false, inl, inr, Bool-cases, if◌then◌else◌, List, [], ◌∷◌, Option, none,
  some, Result, ok,
}
use plugchain_sdk_go.Prelude.Integer.{pos}
use plugchain_sdk_go.Denom.{denom_eq}
use plugchain_sdk_go.CoinType.{Token}
use plugchain_sdk_go.Client.{
  Entry, BaseAccount, BaseTx, ClientConfig, TxResponse, Services, TokenReply,
}
use plugchain_sdk_go.Client.Broadcast.{sync}

abbrev pub World : Type 0
World = List (List ℕ × Entry)

abbrev pub entry_of : List ℕ → World → Option Entry
entry_of key [] = none
entry_of key ((k, v) ∷ w) = if denom_eq k key then some v else entry_of key w

abbrev pub without : List ℕ → World → World
without key [] = []
without key ((k, v) ∷ w) =
    let rest = without key w in if denom_eq k key then rest else (k, v) ∷ rest

pub entry_of-without : (key : List ℕ) (w : World) → entry_of key (without key w) ≡ none
entry_of-without key [] = refl
entry_of-without key ((k, v) ∷ w) = elim (Bool-cases (denom_eq k key)) [
  | inl t ↦ rw t (entry_of-without key w)
  | inr t ↦ rw (t, t) (entry_of-without key w)
]

abbrev pub account_at : List ℕ → BaseAccount
account_at addr = record {
  address = addr;
  coins = [];
  pub_key = [];
  account_number = 7;
  sequence = 5;
}

abbrev pub no_response : TxResponse
no_response = record {
  code = 0;
  codespace = [];
  log = [];
  gas_wanted = pos 0;
  gas_used = pos 0;
  events = [];
}

-- A unit of atom is a million of uatom.
abbrev pub atom_token : Token
atom_token = record {
  symbol = b'a' ∷ b't' ∷ b'o' ∷ b'm' ∷ [];
  name = [];
  scale = 6;
  min_unit = b'u' ∷ b'a' ∷ b't' ∷ b'o' ∷ b'm' ∷ [];
}

-- The key store answers with `keys`.
abbrev pub node_with : {Msg : Type 0} → Result (List ℕ × List ℕ) → Services World Msg
node_with keys = record {
  get = λ key w. (entry_of key w, w);
  set = λ key v w. (true, (key, v) ∷ w);
  set_with_expire = λ key v w. (true, (key, v) ∷ w);
  remove = λ key w. (true, without key w);
  query_account = λ addr w. (ok (account_at addr), w);
  token_query = λ denom w. (TokenReply.found atom_token, w);
  find = λ name password w. (keys, w);
  sign = λ name password bytes w. (ok bytes, w);
  acc_address_from_bech32 = λ a. ok a;
  address_string = λ a. a;
  default_sign_mode = 1;
  get_sign_bytes = λ mode data_ tx. ok [];
  tx_encoder = λ tx. ok [];
  tx_json_encoder = λ tx. ok [];
  validate_basic = λ m. ok tt;
  new_any_with_value = λ m. ok tt;
  estimate_tx_gas = λ tx w. (ok 1, w);
  broadcast_tx_commit = λ tx w. (
    ok (record { check_tx = no_response; deliver_tx = no_response; hash = tx; height = pos 1 }),
    w,
  );
  broadcast_tx_sync = λ tx w. (ok (record { code = 0; log = []; hash = tx }), w);
  broadcast_tx_async = λ tx w. (ok tx, w);
}

abbrev pub config_with : Bool → ClientConfig
config_with cached = record {
  chain_id = b'c' ∷ [];
  gas = 1;
  fee = [];
  mode = sync;
  cached = cached;
}

abbrev pub small_tx : BaseTx
small_tx = record {
  from_ = b'n' ∷ [];
  password = [];
  gas = 0;
  fee = [];
  memo = [];
  mode = [];
  simulate = false;
  account_number = 7;
  sequence = 5;
}
