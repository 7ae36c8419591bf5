-- ===== src/Tx/Signers.antt =====
-- types/tx/types.go: the messages of a transaction, who must sign it, and its own checks; and who pays its
-- fee, of types/tx/builder.go.
use plugchain_sdk_go.Prelude.{
  ℕ, ◌^◌, ◌-◌, Bool, false, not, ◌||◌, ◌==◌, ltb, if◌then◌else◌, List, [], ◌∷◌, ◌++◌, length,
  Option, none, some, Result, ok, err, panic, ◌>>=◌, ◌>>◌, must, err_if, index_out_of_range,
  type_assertion, no_fee, gas_too_large, negative_fee, no_signatures, wrong_signers,
}
use plugchain_sdk_go.Denom.{denom_eq}
use plugchain_sdk_go.Coin
use plugchain_sdk_go.Tx.{Fee, ProtoTx, Proto}
use plugchain_sdk_go.Tx.Wrapper.{fee_of}

-- `MaxGasWanted`
abbrev pub max_gas_wanted : ℕ
max_gas_wanted = 2 ^ 63 - 1

-- `seen[s]`
abbrev pub is_seen : List ℕ → List (List ℕ) → Bool
is_seen s [] = false
is_seen s (t ∷ ts) = denom_eq s t || is_seen s ts

module _ {A K Msg : Type 0} (proto : Proto A K Msg) where
  -- `GetMsgs`: a value that is no message makes the type assertion panic.
  abbrev pub msg_of : A → Result Msg
  msg_of any = msg_kept (proto.cached_msg any)
    where
      msg_kept : Option Msg → Result Msg
      msg_kept none = panic type_assertion
      msg_kept (some msg) = ok msg

  unfoldable pub msgs_of : List A → Result (List Msg)
  msgs_of [] = ok []
  msgs_of (any ∷ anys) = do msg ← msg_of any; msgs ← msgs_of anys; ok (msg ∷ msgs)

  unfoldable pub get_msgs : ProtoTx A → Result (List Msg)
  unfolding msgs_of
  get_msgs tx = msgs_of tx.body.messages

  -- The two loops of `GetSigners`, with the signers so far and the texts that are seen.
  abbrev pub Signers : Type 0
  Signers = List (List ℕ) × List (List ℕ)

  unfoldable pub add_signer : List ℕ → Signers → Signers
  add_signer addr (signers, seen) =
      if is_seen (proto.address_string addr) seen
      then (signers, seen)
      else (signers ++ addr ∷ [], proto.address_string addr ∷ seen)

  unfoldable pub add_signers : List (List ℕ) → Signers → Signers
  unfolding add_signer
  add_signers [] state = state
  add_signers (addr ∷ addrs) state = add_signers addrs (add_signer addr state)

  unfoldable pub signers_loop : List Msg → Signers → Signers
  unfolding add_signers
  signers_loop [] state = state
  signers_loop (msg ∷ msgs) state = signers_loop msgs (add_signers (proto.msg_signers msg) state)

  unfoldable pub get_signers : ProtoTx A → Result (List (List ℕ))
  unfolding get_msgs signers_loop
  get_signers tx = get_msgs tx >>= λ msgs. ok (signers_loop msgs ([], [])).0

  -- `Tx.ValidateBasic`
  abbrev pub fee_there : Option Fee → Result Fee
  fee_there none = err no_fee
  fee_there (some fee) = ok fee

  unfoldable pub validate_basic : ProtoTx A → Result (Unit {0})
  unfolding Coin.is_any_negative get_signers
  validate_basic tx = fee_there tx.auth_info.fee >>= λ fee.
      err_if (ltb max_gas_wanted fee.gas_limit) gas_too_large
      >> (err_if (Coin.is_any_negative fee.amount) negative_fee
          >> (err_if (length tx.signatures == 0) no_signatures
              >> (get_signers tx >>= λ signers.
                  err_if (not (length tx.signatures == length signers)) wrong_signers)))

  -- `FeePayer`: the payer that is set, or the first signer.
  abbrev pub first_signer : List (List ℕ) → Result (List ℕ)
  first_signer [] = panic index_out_of_range
  first_signer (addr ∷ addrs) = ok addr

  unfoldable pub fee_payer : ProtoTx A → Result (List ℕ)
  unfolding get_signers
  fee_payer tx = fee_of tx.auth_info.fee >>= λ fee.
      if length fee.payer == 0
      then (get_signers tx >>= first_signer)
      else must (proto.acc_address_from_bech32 fee.payer)

  -- `FeeGranter`: none where it is not set.
  unfoldable pub fee_granter : ProtoTx A → Result (Option (List ℕ))
  fee_granter tx = fee_of tx.auth_info.fee >>= λ fee.
      if length fee.granter == 0
      then ok none
      else (must (proto.acc_address_from_bech32 fee.granter) >>= λ granter. ok (some granter))
