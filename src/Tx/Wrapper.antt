-- ===== src/Tx/Wrapper.antt =====
-- types/tx/builder.go: the builder of a transaction, which keeps the encoded body and the encoded
-- information on the signers until a field behind them is set.
use plugchain_sdk_go.Prelude.{
  ℕ, Bool, false, ◌==◌, if◌then◌else◌, List, [], ◌∷◌, length, Option, none, some, Result, ok, panic,
  ◌>>=◌, must, nil_pointer,
}
use plugchain_sdk_go.Coin.{Coins}
use plugchain_sdk_go.Tx.{SignerInfo, TxBody, Fee, AuthInfo, ProtoTx, Proto}

-- `wrapper`
pub record Wrapper (A : Type 0) : Type 0 where
  pub tx : ProtoTx A
  pub body_bz : List ℕ
  pub auth_info_bz : List ℕ
  pub tx_body_has_unknown_non_criticals : Bool

-- `&Fee{}`
abbrev pub empty_fee : Fee
empty_fee = record { amount = []; gas_limit = 0; payer = []; granter = [] }

-- `if w.tx.AuthInfo.Fee == nil { w.tx.AuthInfo.Fee = &Fee{} }`
abbrev pub fee_or_empty : Option Fee → Fee
fee_or_empty none = empty_fee
fee_or_empty (some fee) = fee

-- A nil fee makes `GetGas` and `GetFee` panic.
abbrev pub fee_of : Option Fee → Result Fee
fee_of none = panic nil_pointer
fee_of (some fee) = ok fee

module _ {A : Type 0} where
  unfoldable pub wrap_tx : ProtoTx A → Wrapper A
  wrap_tx tx = record {
    tx = tx;
    body_bz = [];
    auth_info_bz = [];
    tx_body_has_unknown_non_criticals = false;
  }

  abbrev pub empty_body : TxBody A
  empty_body = record {
    messages = [];
    memo = [];
    timeout_height = 0;
    extension_options = [];
    non_critical_extension_options = [];
  }

  unfoldable pub new_builder : Wrapper A
  unfolding wrap_tx
  new_builder = wrap_tx (record {
    body = empty_body;
    auth_info = record { signer_infos = []; fee = some empty_fee };
    signatures = [];
  })

  -- A change of the body: the bytes kept of it no longer match.
  unfoldable pub with_body : Wrapper A → TxBody A → Wrapper A
  with_body w body = record {
    tx = record { body = body; auth_info = w.tx.auth_info; signatures = w.tx.signatures };
    body_bz = [];
    auth_info_bz = w.auth_info_bz;
    tx_body_has_unknown_non_criticals = w.tx_body_has_unknown_non_criticals;
  }

  -- A change of the information on the signers.
  unfoldable pub with_auth_info : Wrapper A → AuthInfo A → Wrapper A
  with_auth_info w auth_info = record {
    tx = record { body = w.tx.body; auth_info = auth_info; signatures = w.tx.signatures };
    body_bz = w.body_bz;
    auth_info_bz = [];
    tx_body_has_unknown_non_criticals = w.tx_body_has_unknown_non_criticals;
  }

  unfoldable pub with_messages : Wrapper A → List A → Wrapper A
  unfolding with_body
  with_messages w anys = with_body w (record {
    messages = anys;
    memo = w.tx.body.memo;
    timeout_height = w.tx.body.timeout_height;
    extension_options = w.tx.body.extension_options;
    non_critical_extension_options = w.tx.body.non_critical_extension_options;
  })

  unfoldable pub set_timeout_height : ℕ → Wrapper A → Wrapper A
  unfolding with_body
  set_timeout_height height w = with_body w (record {
    messages = w.tx.body.messages;
    memo = w.tx.body.memo;
    timeout_height = height;
    extension_options = w.tx.body.extension_options;
    non_critical_extension_options = w.tx.body.non_critical_extension_options;
  })

  unfoldable pub set_memo : List ℕ → Wrapper A → Wrapper A
  unfolding with_body
  set_memo memo w = with_body w (record {
    messages = w.tx.body.messages;
    memo = memo;
    timeout_height = w.tx.body.timeout_height;
    extension_options = w.tx.body.extension_options;
    non_critical_extension_options = w.tx.body.non_critical_extension_options;
  })

  unfoldable pub set_extension_options : List A → Wrapper A → Wrapper A
  unfolding with_body
  set_extension_options options w = with_body w (record {
    messages = w.tx.body.messages;
    memo = w.tx.body.memo;
    timeout_height = w.tx.body.timeout_height;
    extension_options = options;
    non_critical_extension_options = w.tx.body.non_critical_extension_options;
  })

  unfoldable pub set_non_critical_extension_options : List A → Wrapper A → Wrapper A
  unfolding with_body
  set_non_critical_extension_options options w = with_body w (record {
    messages = w.tx.body.messages;
    memo = w.tx.body.memo;
    timeout_height = w.tx.body.timeout_height;
    extension_options = w.tx.body.extension_options;
    non_critical_extension_options = options;
  })

  unfoldable pub with_fee : Wrapper A → (Fee → Fee) → Wrapper A
  unfolding with_auth_info
  with_fee w change = with_auth_info w (record {
    signer_infos = w.tx.auth_info.signer_infos;
    fee = some (change (fee_or_empty w.tx.auth_info.fee));
  })

  unfoldable pub set_gas_limit : ℕ → Wrapper A → Wrapper A
  unfolding with_fee
  set_gas_limit limit w = with_fee w (λ fee. record {
    amount = fee.amount;
    gas_limit = limit;
    payer = fee.payer;
    granter = fee.granter;
  })

  unfoldable pub set_fee_amount : Coins → Wrapper A → Wrapper A
  unfolding with_fee
  set_fee_amount coins w = with_fee w (λ fee. record {
    amount = coins;
    gas_limit = fee.gas_limit;
    payer = fee.payer;
    granter = fee.granter;
  })

  -- `setSignerInfos` and `setSignatures`
  unfoldable pub set_signer_infos : List (SignerInfo A) → Wrapper A → Wrapper A
  unfolding with_auth_info
  set_signer_infos infos w =
      with_auth_info w (record { signer_infos = infos; fee = w.tx.auth_info.fee })

  unfoldable pub set_raw_signatures : List (List ℕ) → Wrapper A → Wrapper A
  set_raw_signatures sigs w = record {
    tx = record { body = w.tx.body; auth_info = w.tx.auth_info; signatures = sigs };
    body_bz = w.body_bz;
    auth_info_bz = w.auth_info_bz;
    tx_body_has_unknown_non_criticals = w.tx_body_has_unknown_non_criticals;
  }

  unfoldable pub get_gas : Wrapper A → Result ℕ
  get_gas w = fee_of w.tx.auth_info.fee >>= λ fee. ok fee.gas_limit

  unfoldable pub get_fee : Wrapper A → Result Coins
  get_fee w = fee_of w.tx.auth_info.fee >>= λ fee. ok fee.amount

module _ {A K Msg : Type 0} (proto : Proto A K Msg) where
  unfoldable pub get_body_bytes : Wrapper A → Result (List ℕ × Wrapper A)
  get_body_bytes w =
      if length w.body_bz == 0
      then (must (proto.marshal_body w.tx.body) >>= λ bz. ok (
        bz,
        record {
          tx = w.tx;
          body_bz = bz;
          auth_info_bz = w.auth_info_bz;
          tx_body_has_unknown_non_criticals = w.tx_body_has_unknown_non_criticals;
        },
      ))
      else ok (w.body_bz, w)

  unfoldable pub get_auth_info_bytes : Wrapper A → Result (List ℕ × Wrapper A)
  get_auth_info_bytes w =
      if length w.auth_info_bz == 0
      then (must (proto.marshal_auth_info w.tx.auth_info) >>= λ bz. ok (
        bz,
        record {
          tx = w.tx;
          body_bz = w.body_bz;
          auth_info_bz = bz;
          tx_body_has_unknown_non_criticals = w.tx_body_has_unknown_non_criticals;
        },
      ))
      else ok (w.auth_info_bz, w)

  unfoldable pub set_fee_payer : List ℕ → Wrapper A → Wrapper A
  unfolding with_fee
  set_fee_payer payer w = with_fee w (λ fee. record {
    amount = fee.amount;
    gas_limit = fee.gas_limit;
    payer = proto.address_string payer;
    granter = fee.granter;
  })

  unfoldable pub set_fee_granter : List ℕ → Wrapper A → Wrapper A
  unfolding with_fee
  set_fee_granter granter w = with_fee w (λ fee. record {
    amount = fee.amount;
    gas_limit = fee.gas_limit;
    payer = fee.payer;
    granter = proto.address_string granter;
  })

  -- `SetMsgs` packs each message.
  unfoldable pub pack_msgs : List Msg → Result (List A)
  pack_msgs [] = ok []
  pack_msgs (msg ∷ msgs) = do any ← proto.pack_msg msg; anys ← pack_msgs msgs; ok (any ∷ anys)

  unfoldable pub set_msgs : List Msg → Wrapper A → Result (Wrapper A)
  unfolding pack_msgs with_messages
  set_msgs msgs w = pack_msgs msgs >>= λ anys. ok (with_messages w anys)
