-- ===== src/Tx/Signed.antt =====
-- types/tx/builder.go: `SetSignatures`, `GetPubKeys` and `GetSignaturesV2`.
use plugchain_sdk_go.Prelude.{
  ℕ, false, not, List, [], ◌∷◌, map, Option, none, some, Result, ok, err, panic, ◌>>=◌, ◌>>◌,
  err_if, index_out_of_range, no_proto_message,
}
use plugchain_sdk_go.Tx.{
  no_data, ModeInfo, no_mode, no_sum, single_mode, multi_mode, SignerInfo, SignatureV2, Proto,
}
use plugchain_sdk_go.Tx.Signatures.{to_mode_info, to_signature_data}
use plugchain_sdk_go.Tx.Wrapper.{Wrapper, set_signer_infos, set_raw_signatures}

-- `sigs[i]`, and the signatures behind it.
abbrev pub first_signature : List (List ℕ) → Result (List ℕ)
first_signature [] = panic index_out_of_range
first_signature (sig ∷ sigs) = ok sig

abbrev pub behind_first : List (List ℕ) → List (List ℕ)
behind_first [] = []
behind_first (sig ∷ sigs) = sigs

module _ {A K Msg : Type 0} (proto : Proto A K Msg) where
  unfoldable pub pub_key_to_any : Option K → Result A
  pub_key_to_any none = err no_proto_message
  pub_key_to_any (some key) =
      err_if (not (proto.is_proto_message key)) no_proto_message >> proto.pack_key key

  -- The loop of `SetSignatures`; a `SignerInfo` has no place for `SkipSequenceCheck`.
  unfoldable pub signer_info : SignatureV2 K → Result (SignerInfo A × List ℕ)
  unfolding to_mode_info pub_key_to_any
  signer_info sig = do
    made ← to_mode_info proto sig.data_
    any ← pub_key_to_any sig.pub_key
    ok (record { public_key = some any; mode_info = made.0; sequence = sig.sequence }, made.1)

  unfoldable pub signer_infos_of :
      List (SignatureV2 K) → Result (List (SignerInfo A) × List (List ℕ))
  unfolding signer_info
  signer_infos_of [] = ok ([], [])
  signer_infos_of (sig ∷ sigs) = do
    first ← signer_info sig
    rest ← signer_infos_of sigs
    ok (first.0 ∷ rest.0, first.1 ∷ rest.1)

  unfoldable pub set_signatures : List (SignatureV2 K) → Wrapper A → Result (Wrapper A)
  unfolding signer_infos_of set_signer_infos set_raw_signatures
  set_signatures sigs w =
      signer_infos_of sigs >>= λ made. ok (set_raw_signatures made.1 (set_signer_infos made.0 w))

  -- `GetPubKeys` at one place.
  abbrev pub pub_key_of : Option A → Option K
  pub_key_of none = none
  pub_key_of (some any) = proto.cached_key any

  unfoldable pub get_pub_keys : Wrapper A → List (Option K)
  get_pub_keys w = map (λ info. pub_key_of info.public_key) w.tx.auth_info.signer_infos

  -- The rounds of `GetSignaturesV2`, which leave the field `SkipSequenceCheck` at its zero value.
  unfoldable pub signature_from : Option K → ℕ → ModeInfo → List (List ℕ) → Result (SignatureV2 K)
  unfolding to_signature_data
  signature_from key sequence no_mode sigs =
      ok (record { pub_key = key; data_ = no_data; sequence = 0; skip_sequence_check = false })
  signature_from key sequence no_sum sigs = do
    sig ← first_signature sigs
    d ← to_signature_data proto no_sum sig
    ok (record { pub_key = key; data_ = d; sequence = sequence; skip_sequence_check = false })
  signature_from key sequence (single_mode mode) sigs = do
    sig ← first_signature sigs
    d ← to_signature_data proto (single_mode mode) sig
    ok (record { pub_key = key; data_ = d; sequence = sequence; skip_sequence_check = false })
  signature_from key sequence (multi_mode bits modes) sigs = do
    sig ← first_signature sigs
    d ← to_signature_data proto (multi_mode bits modes) sig
    ok (record { pub_key = key; data_ = d; sequence = sequence; skip_sequence_check = false })

  unfoldable pub signatures_from :
      List (SignerInfo A) → List (List ℕ) → Result (List (SignatureV2 K))
  unfolding signature_from
  signatures_from [] sigs = ok []
  signatures_from (info ∷ infos) sigs = do
    first ← signature_from (pub_key_of info.public_key) info.sequence info.mode_info sigs
    rest ← signatures_from infos (behind_first sigs)
    ok (first ∷ rest)

  unfoldable pub get_signatures_v2 : Wrapper A → Result (List (SignatureV2 K))
  unfolding signatures_from
  get_signatures_v2 w = signatures_from w.tx.auth_info.signer_infos w.tx.signatures
