-- ===== src/Staking/Calls.antt =====
-- The calls of modules/staking/staking.go that create and edit a validator.
use plugchain_sdk_go.Prelude.{ℕ, List, [], ◌∷◌, Option, some, Result}
use plugchain_sdk_go.Prelude.Integer.{ℤ}
use plugchain_sdk_go.Dec.{Decimal}
use plugchain_sdk_go.DecCoin.{DecCoin}
use plugchain_sdk_go.Client.{Io, ◌>>=◌, pure, BaseTx, ClientConfig, ResultTx, Services}
use plugchain_sdk_go.Client.Cache.{query_address}
use plugchain_sdk_go.Client.Tokens.{to_min_coin}
use plugchain_sdk_go.Client.Broadcast.{build_and_send}
use plugchain_sdk_go.Staking.{StakingMsg, creating, editing, first_coin}

pub record CreateValidatorRequest : Type 0 where
  pub moniker : List ℕ
  pub rate : Option Decimal
  pub max_rate : Option Decimal
  pub max_change_rate : Option Decimal
  pub min_self_delegation : Option ℤ
  pub pubkey : List ℕ
  pub value : DecCoin

pub record EditValidatorRequest : Type 0 where
  pub moniker : List ℕ
  pub identity : List ℕ
  pub website : List ℕ
  pub security_contact : List ℕ
  pub details : List ℕ
  pub commission_rate : Decimal
  pub min_self_delegation : ℤ

-- The parser and the text of validator addresses, the parser of consensus keys and their packing are
-- parameters.
module _ {W K : Type 0} (node : Services W StakingMsg) (cfg : ClientConfig)
    (parse_validator : List ℕ → Result (List ℕ)) (val_address_string : List ℕ → List ℕ)
    (parse_key : List ℕ → Result K) (pack_key : K → Result (List ℕ)) where
  unfoldable pub create_validator : CreateValidatorRequest → BaseTx → Io W ResultTx
  unfolding query_address to_min_coin build_and_send
  create_validator request base_tx =
      query_address node cfg base_tx.from_ base_tx.password >>= λ delegator_addr.
      pure (parse_validator (node.address_string delegator_addr)) >>= λ val_addr.
      to_min_coin node cfg (request.value ∷ []) >>= λ values.
      pure (parse_key request.pubkey) >>= λ pk. pure (pack_key pk) >>= λ pk_any.
      pure (first_coin values) >>= λ value.
      build_and_send node cfg
        (creating (record {
          description = record {
            moniker = request.moniker;
            identity = [];
            website = [];
            security_contact = [];
            details = [];
          };
          commission = record {
            rate = request.rate;
            max_rate = request.max_rate;
            max_change_rate = request.max_change_rate;
          };
          min_self_delegation = request.min_self_delegation;
          delegator_address = node.address_string delegator_addr;
          validator_address = val_address_string val_addr;
          pubkey = some pk_any;
          value = value;
        })
          ∷ [])
        base_tx

  unfoldable pub edit_validator : EditValidatorRequest → BaseTx → Io W ResultTx
  unfolding query_address build_and_send
  edit_validator request base_tx =
      query_address node cfg base_tx.from_ base_tx.password >>= λ delegator_addr.
      pure (parse_validator (node.address_string delegator_addr)) >>= λ val_addr.
      build_and_send node cfg
        (editing (record {
          description = record {
            moniker = request.moniker;
            identity = request.identity;
            website = request.website;
            security_contact = request.security_contact;
            details = request.details;
          };
          validator_address = val_address_string val_addr;
          commission_rate = some request.commission_rate;
          min_self_delegation = some request.min_self_delegation;
        })
          ∷ [])
        base_tx
