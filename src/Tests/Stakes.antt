-- ===== src/Tests/Stakes.antt =====
-- A run of modules/staking/staking.go on a small node.
use plugchain_sdk_go.Prelude.{ℕ, ◌≡◌, ◌^◌, refl, false, List, [], ◌∷◌, none, some, Result, ok}
use plugchain_sdk_go.Prelude.Integer.{pos}
use plugchain_sdk_go.CoinSet.{Coin}
use plugchain_sdk_go.DecCoin.{DecCoin}
use plugchain_sdk_go.Client.{Services}
use plugchain_sdk_go.Client.Cache.{
  prefix_key, cache_get, cache_set_with_expire, find_address, address_of, query_address,
}
use plugchain_sdk_go.Client.Tokens.{to_min_coin, min_coin_loop, query_token}
use plugchain_sdk_go.Staking.{MsgCreateValidator, StakingMsg, DelegateRequest}
use plugchain_sdk_go.Int
use plugchain_sdk_go.Denom.{compare_denom}
use plugchain_sdk_go.Address.{is_empty, equals}
use plugchain_sdk_go.Staking.Validators.{
  validate_create_validator, check_terms, create_validator_signers,
  create_validator_signers-validate_create_validator,
}
use plugchain_sdk_go.Tests.Node.{World, node_with, config_with, small_tx}

abbrev staking_node : Services World StakingMsg
staking_node = node_with (ok (b'p' ∷ [], b'a' ∷ []))

abbrev one_atom : DecCoin
one_atom = record { denom = b'a' ∷ b't' ∷ b'o' ∷ b'm' ∷ []; amount = pos (10 ^ 18) }

abbrev million_uatom : List Coin
million_uatom = record { denom = b'u' ∷ b'a' ∷ b't' ∷ b'o' ∷ b'm' ∷ []; amount = pos (10 ^ 6) } ∷ []

abbrev delegate_one : DelegateRequest
delegate_one = record { validator_addr = b'v' ∷ []; amount = one_atom }

sender-found :
    query_address staking_node (config_with false) small_tx.from_ small_tx.password []
    ≡ (ok (b'a' ∷ []), [])
unfolding query_address address_of find_address cache_get cache_set_with_expire prefix_key
sender-found = refl

atom-converted :
    to_min_coin staking_node (config_with false) (one_atom ∷ []) [] ≡ (ok million_uatom, [])
unfolding to_min_coin min_coin_loop query_token cache_get
    plugchain_sdk_go.CoinType.convert_to_min_coin plugchain_sdk_go.CoinType.get_coin_type
    plugchain_sdk_go.CoinType.trim_space plugchain_sdk_go.CoinType.rescale
    plugchain_sdk_go.CoinType.get_scale_factor plugchain_sdk_go.CoinType.has_unit
    plugchain_sdk_go.CoinType.is_main_unit plugchain_sdk_go.CoinType.is_min_unit
    plugchain_sdk_go.Denom.compare_denom plugchain_sdk_go.Denom.matches_denom
    plugchain_sdk_go.Denom.must_validate_denom plugchain_sdk_go.Denom.validate_denom
    plugchain_sdk_go.Denom.to_lower plugchain_sdk_go.Prelude.BitLen.bit_len plugchain_sdk_go.Dec.mul
    plugchain_sdk_go.Dec.checked plugchain_sdk_go.Dec.chop_precision_and_round
    plugchain_sdk_go.Dec.new_dec_from_int plugchain_sdk_go.Dec.quo plugchain_sdk_go.Dec.scaled_quo
    plugchain_sdk_go.Dec.round_int plugchain_sdk_go.Dec.big_quo
    plugchain_sdk_go.Dec.chop_precision_and_truncate plugchain_sdk_go.Dec.round_half_even
    plugchain_sdk_go.Dec.truncate_int plugchain_sdk_go.Coin.new_coin plugchain_sdk_go.Coin.validate
    plugchain_sdk_go.Client.Cache.cache_set plugchain_sdk_go.Client.Tokens.answer
    plugchain_sdk_go.Client.Tokens.save_tokens plugchain_sdk_go.Client.Tokens.token_key
    plugchain_sdk_go.Client.Tokens.token_of plugchain_sdk_go.CoinSet.sort
    plugchain_sdk_go.DecCoin.new_dec_coin_from_dec plugchain_sdk_go.DecCoin.truncate_decimal_coin
    plugchain_sdk_go.Int.is_negative plugchain_sdk_go.Int.new_int_from_big_int
    plugchain_sdk_go.Int.new_int_with_decimal plugchain_sdk_go.Prelude.Integer.◌*ℤ◌
    plugchain_sdk_go.Prelude.Integer.quo plugchain_sdk_go.Prelude.Integer.neg
    plugchain_sdk_go.Prelude.Integer.◌-ℤ◌
atom-converted = refl

-- A validator whose account and validator addresses are the same bytes.
abbrev small_validator : MsgCreateValidator
small_validator = record {
  description = record {
    moniker = b'm' ∷ [];
    identity = [];
    website = [];
    security_contact = [];
    details = [];
  };
  commission = record { rate = some (pos 1); max_rate = none; max_change_rate = none };
  min_self_delegation = some (pos 1);
  delegator_address = b'v' ∷ [];
  validator_address = b'v' ∷ [];
  pubkey = some (b'k' ∷ []);
  value = record { denom = b'a' ∷ b't' ∷ b'o' ∷ b'm' ∷ []; amount = pos 1 };
}

validator-accepted : validate_create_validator (λ a. ok a) (λ a. ok a) small_validator ≡ ok tt
unfolding validate_create_validator check_terms equals is_empty compare_denom Int.is_positive
validator-accepted = refl

create_validator_signers-validate_create_validator_example :
    (addr : List ℕ) × (is_empty addr ≡ false)
    × (◌≡◌ {A = Result (List ℕ)} (ok (b'v' ∷ [])) (ok addr))
    × (◌≡◌ {A = Result (List ℕ)} (ok (b'v' ∷ [])) (ok addr))
    × (create_validator_signers (λ a. ok a) (λ a. ok a) small_validator ≡ ok (addr ∷ []))
create_validator_signers-validate_create_validator_example =
    create_validator_signers-validate_create_validator (λ a. ok a) (λ a. ok a) small_validator
      validator-accepted
