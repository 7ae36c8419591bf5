-- ===== src/Tx/Coding.antt =====
-- types/tx/direct.go, encoder.go and decoder.go: the bytes that are signed, and the bytes of a transaction
-- with the builder that they are decoded into.
use plugchain_sdk_go.Prelude.{
  ℕ, Bool, true, not, ◌==◌, List, Option, none, some, Result, ok, err, panic, ◌>>=◌, ◌>>◌, err_if,
  unexpected_mode,
}
use plugchain_sdk_go.UnknownFields.{
  Wire, Verdict, passed, rejected, crashed, out_of_fuel, reject_unknown_fields,
  reject_unknown_fields_strict,
}
use plugchain_sdk_go.Tx.{TxRaw, Proto}
use plugchain_sdk_go.Tx.Wrapper.{Wrapper, get_body_bytes, get_auth_info_bytes}

-- `SignMode_SIGN_MODE_DIRECT`
abbrev pub sign_mode_direct : ℕ
sign_mode_direct = 1

-- What a call makes of the outcome of `RejectUnknownFields`; `none` is a run that goes on for ever.
abbrev pub accepted : {B : Type 0} → Verdict → (Bool → Option (Result B)) → Option (Result B)
accepted (passed flag) next = next flag
accepted (rejected flag e) next = some (err e)
accepted (crashed p) next = some (panic p)
accepted out_of_fuel next = none

-- `if err != nil { return nil, err }` between the two calls of `RejectUnknownFields`.
abbrev pub on_value : {B C : Type 0} → Result B → (B → Option (Result C)) → Option (Result C)
on_value (ok b) next = next b
on_value (err e) next = some (err e)
on_value (panic p) next = some (panic p)

module _ {A K Msg : Type 0} (proto : Proto A K Msg) where
  -- `DirectSignBytes`
  unfoldable pub direct_sign_bytes : List ℕ → List ℕ → List ℕ → ℕ → Result (List ℕ)
  direct_sign_bytes body_bytes auth_info_bytes chain_id account_number =
      proto.marshal_sign_doc (record {
        body_bytes = body_bytes;
        auth_info_bytes = auth_info_bytes;
        chain_id = chain_id;
        account_number = account_number;
      })

  -- `GetSignBytes` of the direct mode, with the builder that it leaves.
  unfoldable pub get_sign_bytes : ℕ → List ℕ → ℕ → Wrapper A → Result (List ℕ × Wrapper A)
  unfolding get_body_bytes get_auth_info_bytes direct_sign_bytes
  get_sign_bytes mode chain_id account_number w =
      err_if (not (mode == sign_mode_direct)) unexpected_mode
      >> (get_body_bytes proto w >>= λ body. get_auth_info_bytes proto body.1 >>= λ auth.
          direct_sign_bytes body.0 auth.0 chain_id account_number >>= λ bz. ok (bz, auth.1))

  -- `DefaultTxEncoder`
  unfoldable pub encode : Wrapper A → Result (List ℕ × Wrapper A)
  unfolding get_body_bytes get_auth_info_bytes
  encode w = get_body_bytes proto w >>= λ body. get_auth_info_bytes proto body.1 >>= λ auth.
      proto.marshal_raw
        (record { body_bytes = body.0; auth_info_bytes = auth.0; signatures = w.tx.signatures })
      >>= λ bz. ok (bz, auth.1)

  -- The end of `DefaultTxDecoder`.
  unfoldable pub unmarshal_parts : TxRaw → Bool → Result (Wrapper A)
  unmarshal_parts raw flag = proto.unmarshal_body raw.body_bytes >>= λ body.
      proto.unmarshal_auth_info raw.auth_info_bytes >>= λ auth_info. ok (record {
        tx = record { body = body; auth_info = auth_info; signatures = raw.signatures };
        body_bz = raw.body_bytes;
        auth_info_bz = raw.auth_info_bytes;
        tx_body_has_unknown_non_criticals = flag;
      })

  module _ {M : Type 0} (wire : Wire M) (tx_raw tx_body : M) where
    unfoldable pub decode_raw : TxRaw → Option (Result (Wrapper A))
    unfolding unmarshal_parts reject_unknown_fields
    decode_raw raw =
        accepted (reject_unknown_fields wire raw.body_bytes tx_body true)
          (λ flag. some (unmarshal_parts raw flag))

    -- `DefaultTxDecoder`, with the types of `TxRaw` and `TxBody`.
    unfoldable pub decode : List ℕ → Option (Result (Wrapper A))
    unfolding decode_raw reject_unknown_fields_strict
    decode tx_bytes =
        accepted (reject_unknown_fields_strict wire tx_bytes tx_raw)
          (λ flag. on_value (proto.unmarshal_raw tx_bytes) decode_raw)
