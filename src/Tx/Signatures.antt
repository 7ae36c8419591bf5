-- ===== src/Tx/Signatures.antt =====
-- types/tx/sigs.go: what a transaction keeps of a signature, and the signature made from it again.
use plugchain_sdk_go.Prelude.{
  ℕ, ◌≡◌, refl, ◌==◌, not, List, [], ◌∷◌, length, Result, ok, panic, ◌>>=◌, ◌>>◌, must, err_if,
  index_out_of_range, nil_pointer, unexpected_mode_info, unrecognized_fields,
}
use plugchain_sdk_go.Tx.{
  SignatureData, SignatureDatas, no_data, single, multi, nil, cons, ModeInfo, ModeInfos, no_mode,
  no_sum, single_mode, multi_mode, none_left, and_mode, Proto,
}

-- `make([]SignatureData, n)` behind the places that the loop fills.
abbrev pub no_datas : List (List ℕ) → SignatureDatas
no_datas [] = nil
no_datas (sig ∷ sigs) = cons no_data (no_datas sigs)

module _ {A K Msg : Type 0} (proto : Proto A K Msg) where
  -- `SignatureDataToModeInfoAndSig`
  unfoldable mutual
    pub to_mode_info : SignatureData → Result (ModeInfo × List ℕ)
    to_mode_info no_data = ok (no_mode, [])
    to_mode_info (single mode sig) = ok (single_mode mode, sig)
    to_mode_info (multi bits datas) = to_mode_infos datas >>= λ found.
        must (proto.marshal_multi found.1) >>= λ sig. ok (multi_mode bits found.0, sig)

    pub to_mode_infos : SignatureDatas → Result (ModeInfos × List (List ℕ))
    to_mode_infos nil = ok (none_left, [])
    to_mode_infos (cons d ds) = to_mode_info d >>= λ found.
        to_mode_infos ds >>= λ rest. ok (and_mode found.0 rest.0, found.1 ∷ rest.1)

  -- `decodeMultisignatures`
  unfoldable pub decode_multisignatures : List ℕ → Result (List (List ℕ))
  decode_multisignatures bz = proto.unmarshal_multi bz >>= λ multisig.
      err_if (not (length multisig.1 == 0)) unrecognized_fields >> ok multisig.0

  -- `ModeInfoAndSigToSignatureData`
  unfoldable mutual
    unfolding decode_multisignatures

    pub to_signature_data : ModeInfo → List ℕ → Result SignatureData
    to_signature_data no_mode sig = panic nil_pointer
    to_signature_data no_sum sig = panic unexpected_mode_info
    to_signature_data (single_mode mode) sig = ok (single mode sig)
    to_signature_data (multi_mode bits modes) sig = decode_multisignatures sig >>= λ sigs.
        to_signature_datas modes sigs >>= λ datas. ok (multi bits datas)

    pub to_signature_datas : ModeInfos → List (List ℕ) → Result SignatureDatas
    to_signature_datas none_left sigs = ok (no_datas sigs)
    to_signature_datas (and_mode mode modes) [] = panic index_out_of_range
    to_signature_datas (and_mode mode modes) (sig ∷ sigs) =
        to_signature_data mode sig >>= λ d. to_signature_datas modes sigs >>= λ ds. ok (cons d ds)

-- No nil stands in a signature.
unfoldable mutual
  pub IsComplete : SignatureData → Type 0
  IsComplete no_data = ⊥
  IsComplete (single mode sig) = Unit
  IsComplete (multi bits datas) = AllComplete datas

  pub AllComplete : SignatureDatas → Type 0
  AllComplete nil = Unit
  AllComplete (cons d ds) = IsComplete d × AllComplete ds

-- What is encoded is decoded, with no field left over.
abbrev pub MultiDecodes : {A K Msg : Type 0} → Proto A K Msg → Type 0
MultiDecodes proto =
    (sigs : List (List ℕ))
    → (bz : List ℕ) × (proto.marshal_multi sigs ≡ ok bz)
      × (proto.unmarshal_multi bz ≡ ok (sigs, []))

module _ {A K Msg : Type 0} (proto : Proto A K Msg) (decodes : MultiDecodes proto) where
  mutual
    unfolding to_mode_info to_signature_data IsComplete

    kept :
        (d : SignatureData)
        → IsComplete d
        → (mode : ModeInfo) × (sig : List ℕ) × (to_mode_info proto d ≡ ok (mode, sig))
          × (to_signature_data proto mode sig ≡ ok d)
    kept no_data h = absurd h
    kept (single mode sig) h = (single_mode mode, sig, refl, refl)
    kept (multi bits datas) h =
        let (modes, sigs, made, back) = all_kept datas h in
        let (bz, encoded, decoded) = decodes sigs in
        (multi_mode bits modes, bz, rw (made, encoded) refl, rw (decoded, back) refl)

    all_kept :
        (ds : SignatureDatas)
        → AllComplete ds
        → (modes : ModeInfos) × (sigs : List (List ℕ)) × (to_mode_infos proto ds ≡ ok (modes, sigs))
          × (to_signature_datas proto modes sigs ≡ ok ds)
    all_kept nil h = (none_left, [], refl, refl)
    all_kept (cons d ds) (h, hs) =
        let (mode, sig, made, back) = kept d h in
        let (modes, sigs, all_made, all_back) = all_kept ds hs in
        (and_mode mode modes, sig ∷ sigs, rw (made, all_made) refl, rw (back, all_back) refl)

  -- A signature without a nil in it, nested as deep as it may be, is what is read back from the mode
  -- information and the bytes that are made of it, where the generated code decodes what it encodes.
  pub to_signature_data-to_mode_info :
      (d : SignatureData)
      → IsComplete d
      → (mode : ModeInfo) × (sig : List ℕ) × (to_mode_info proto d ≡ ok (mode, sig))
        × (to_signature_data proto mode sig ≡ ok d)
  to_signature_data-to_mode_info d h = kept d h
