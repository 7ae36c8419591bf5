-- ===== src/Tx/Returned.antt =====
-- types/tx/builder.go: the signatures that are set are those that are got.
use plugchain_sdk_go.Prelude.{
  ℕ, ◌≡◌, false, map, refl, sym, ap, ◌∙◌, ◌⊎◌, inl, inr, not, List, [], ◌∷◌, All, Option, none,
  some, ok, ◌>>=◌, >>=-eq-ok, ok-injective, err_if-passed, no_proto_message,
}
use mathlib.Core.Path.{subst}
use plugchain_sdk_go.Tx.{
  SignatureData, no_data, single, multi, ModeInfo, no_mode, no_sum, single_mode, multi_mode,
  SignerInfo, SignatureV2, Proto,
}
use plugchain_sdk_go.Tx.Signatures.{
  to_mode_info, to_signature_data, IsComplete, MultiDecodes, to_signature_data-to_mode_info,
}
use plugchain_sdk_go.Tx.Wrapper.{Wrapper, set_signer_infos, set_raw_signatures, with_auth_info}
use plugchain_sdk_go.Tx.Signed.{
  pub_key_to_any, signer_info, signer_infos_of, set_signatures, pub_key_of, signature_from,
  signatures_from, get_signatures_v2,
}

-- A signature as it comes back: its `SkipSequenceCheck` is false.
abbrev pub checked : {K : Type 0} → SignatureV2 K → SignatureV2 K
checked sig = record sig { skip_sequence_check = false }

module _ {A K Msg : Type 0} (proto : Proto A K Msg) where
  -- An `Any` keeps the key that was packed into it.
  abbrev pub KeepsKeys : Type 0
  KeepsKeys = (key : K) (any : A) → proto.pack_key key ≡ ok any → proto.cached_key any ≡ some key

  -- A signature without a nil in it, or, as in a simulation, none at all with the sequence 0.
  abbrev pub IsWhole : SignatureV2 K → Type 0
  IsWhole sig = IsComplete sig.data_ ⊎ ((sig.data_ ≡ no_data) × (sig.sequence ≡ 0))

  abbrev signature : Option K → SignatureData → ℕ → SignatureV2 K
  signature key d sequence = record {
    pub_key = key;
    data_ = d;
    sequence = sequence;
    skip_sequence_check = false;
  }

  module _ (multi_decodes : MultiDecodes proto) (keeps_keys : KeepsKeys) where
    pub_key_of-pub_key_to_any :
        (key : Option K) (any : A)
        → pub_key_to_any proto key ≡ ok any
        → pub_key_of proto (some any) ≡ key
    unfolding pub_key_to_any
    pub_key_of-pub_key_to_any none any e = cc
    pub_key_of-pub_key_to_any (some key) any e =
        let (_, packed) =
          err_if-passed (not (proto.is_proto_message key)) no_proto_message (proto.pack_key key)
            e in
        keeps_keys key any packed

    signature_from-mode :
        (key : Option K) (sequence : ℕ) (mode : ModeInfo) (sig : List ℕ) (sigs : List (List ℕ))
        (d : SignatureData)
        → to_signature_data proto mode sig ≡ ok d
        → signature_from proto key sequence mode (sig ∷ sigs) ≡ ok (signature key d sequence)
    unfolding signature_from to_signature_data
    signature_from-mode key sequence no_mode sig sigs d e = cc
    signature_from-mode key sequence no_sum sig sigs d e = cc
    signature_from-mode key sequence (single_mode mode) sig sigs d e =
        ap (λ r. r >>= λ d. ok (signature key d sequence)) e
    signature_from-mode key sequence (multi_mode bits modes) sig sigs d e =
        ap (λ r. r >>= λ d. ok (signature key d sequence)) e

    signature_from-to_mode_info :
        (key : Option K) (sequence : ℕ) (d : SignatureData) (made : ModeInfo × List ℕ)
        (sigs : List (List ℕ))
        → IsWhole (signature key d sequence)
        → to_mode_info proto d ≡ ok made
        → signature_from proto key sequence made.0 (made.1 ∷ sigs) ≡ ok (signature key d sequence)
    unfolding to_mode_info signature_from
    signature_from-to_mode_info key sequence d made sigs (inl whole) e =
        let (mode, sig, e1, back) = to_signature_data-to_mode_info proto multi_decodes d whole in
        let same : ◌≡◌ {A = ModeInfo × List ℕ} (mode, sig) made = ok-injective (sym e1 ∙ e) in
        subst
          (λ m. signature_from proto key sequence m.0 (m.1 ∷ sigs) ≡ ok (signature key d sequence))
          same (signature_from-mode key sequence mode sig sigs d back)
    signature_from-to_mode_info key sequence no_data made sigs (inr (_, zero_sequence)) e =
        let same : ◌≡◌ {A = ModeInfo × List ℕ} (no_mode, []) made = ok-injective e in
        let zeroed : signature_from proto key sequence no_mode ([] ∷ sigs)
            ≡ ok (signature key no_data sequence) =
          ap (λ n. ok (signature key no_data n)) (sym zero_sequence) in
        subst
          (λ m.
            signature_from proto key sequence m.0 (m.1 ∷ sigs)
            ≡ ok (signature key no_data sequence))
          same zeroed
    signature_from-to_mode_info key sequence (single m s) made sigs (inr (none_there, _)) e = cc
    signature_from-to_mode_info key sequence (multi b ds) made sigs (inr (none_there, _)) e = cc

    signature_from-signer_info :
        (sig : SignatureV2 K) (made : SignerInfo A × List ℕ) (sigs : List (List ℕ))
        → IsWhole sig
        → signer_info proto sig ≡ ok made
        → signature_from proto
            (pub_key_of proto made.0.public_key)
            made.0.sequence
            made.0.mode_info
            (made.1 ∷ sigs)
          ≡ ok (checked sig)
    unfolding signer_info
    signature_from-signer_info sig made sigs whole e =
        let (mode, e1, rest) = >>=-eq-ok (to_mode_info proto sig.data_) _ e in
        let (any, e2, e3) = >>=-eq-ok (pub_key_to_any proto sig.pub_key) _ rest in
        let key = pub_key_of-pub_key_to_any sig.pub_key any e2 in
        let back =
          signature_from-to_mode_info sig.pub_key sig.sequence sig.data_ mode sigs whole e1 in
        subst
          (λ m.
            signature_from proto (pub_key_of proto m.0.public_key) m.0.sequence m.0.mode_info
              (m.1 ∷ sigs)
            ≡ ok (checked sig))
          (ok-injective e3) (rw key back)

    signatures_from-signer_infos_of :
        (sigs : List (SignatureV2 K)) (made : List (SignerInfo A) × List (List ℕ))
        → All IsWhole sigs
        → signer_infos_of proto sigs ≡ ok made
        → signatures_from proto made.0 made.1 ≡ ok (map checked sigs)
    unfolding signer_infos_of signatures_from
    signatures_from-signer_infos_of [] made whole e =
        subst (λ m. signatures_from proto m.0 m.1 ≡ ok []) (ok-injective e) refl
    signatures_from-signer_infos_of (sig ∷ sigs) made (whole, all) e =
        let (first, e1, e2) = >>=-eq-ok (signer_info proto sig) _ e in
        let (rest, e3, e4) = >>=-eq-ok (signer_infos_of proto sigs) _ e2 in
        let head = signature_from-signer_info sig first rest.1 whole e1 in
        let tail = signatures_from-signer_infos_of sigs rest all e3 in
        subst (λ m. signatures_from proto m.0 m.1 ≡ ok (checked sig ∷ map checked sigs))
          (ok-injective e4) (rw (head, tail) refl)

    -- Where the generated code decodes the multi-signatures that it encodes, and an Any keeps the
    -- key that is packed into it: the signatures that SetSignatures sets, none with a nil inside,
    -- and the sequence 0 where there is no signature, are those that GetSignaturesV2 returns, with
    -- their keys, data and sequences, except that each returned SkipSequenceCheck is false, also
    -- where it was set.
    pub get_signatures_v2-set_signatures :
        (sigs : List (SignatureV2 K)) (w w' : Wrapper A)
        → All IsWhole sigs
        → set_signatures proto sigs w ≡ ok w'
        → get_signatures_v2 proto w' ≡ ok (map checked sigs)
    unfolding set_signatures get_signatures_v2 set_signer_infos set_raw_signatures with_auth_info
    get_signatures_v2-set_signatures sigs w w' whole e =
        let (made, e1, e2) = >>=-eq-ok (signer_infos_of proto sigs) _ e in
        subst
          (λ v.
            signatures_from proto v.tx.auth_info.signer_infos v.tx.signatures
            ≡ ok (map checked sigs))
          (ok-injective e2) (signatures_from-signer_infos_of sigs made whole e1)
