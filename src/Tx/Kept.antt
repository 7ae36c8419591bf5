-- ===== src/Tx/Kept.antt =====
-- The bytes that the builder of types/tx/builder.go keeps are those of what it holds, in every order of its
-- calls, so that what is signed, and what is sent, is the transaction.
use plugchain_sdk_go.Prelude.{
  ℕ, ◌≡◌, refl, false, ◌==◌, if-true, if-false, Bool-cases, inl, inr, List, length, ok, >>=-eq-ok,
  ok-injective, must-eq-ok, must,
}
use mathlib.Core.Path.{subst}
use plugchain_sdk_go.Coin.{Coins}
use plugchain_sdk_go.Tx.{SignatureV2, TxBody, AuthInfo, Proto}
use plugchain_sdk_go.Tx.Wrapper.{
  Wrapper, with_body, with_auth_info, with_fee, with_messages, set_timeout_height, set_memo,
  set_extension_options, set_non_critical_extension_options, set_gas_limit, set_fee_amount,
  set_signer_infos, set_raw_signatures, get_body_bytes, get_auth_info_bytes, set_fee_payer,
  set_fee_granter, pack_msgs, set_msgs,
}
use plugchain_sdk_go.Tx.Signed.{signer_infos_of, set_signatures}

module _ {A K Msg : Type 0} (proto : Proto A K Msg) where
  -- The generated code decodes what it encodes.
  pub record Decodes : Type 0 where
    pub body_decodes :
        (body : TxBody A) (bz : List ℕ)
        → proto.marshal_body body ≡ ok bz
        → proto.unmarshal_body bz ≡ ok body
    pub auth_info_decodes :
        (auth_info : AuthInfo A) (bz : List ℕ)
        → proto.marshal_auth_info auth_info ≡ ok bz
        → proto.unmarshal_auth_info bz ≡ ok auth_info

  -- Bytes that are kept decode to what the builder holds.
  pub record Coherent (w : Wrapper A) : Type 0 where
    pub body : (length w.body_bz == 0) ≡ false → proto.unmarshal_body w.body_bz ≡ ok w.tx.body
    pub auth_info :
        (length w.auth_info_bz == 0) ≡ false
        → proto.unmarshal_auth_info w.auth_info_bz ≡ ok w.tx.auth_info

  -- The calls that change a builder, in the order in which they may come.
  pub data Step : Wrapper A → Wrapper A → Type 0 where
    msgs_set : {w w' : Wrapper A} (msgs : List Msg) (e : set_msgs proto msgs w ≡ ok w') → Step w w'
    timeout_set : {w : Wrapper A} (height : ℕ) → Step w (set_timeout_height height w)
    memo_set : {w : Wrapper A} (memo : List ℕ) → Step w (set_memo memo w)
    extensions_set : {w : Wrapper A} (options : List A) → Step w (set_extension_options options w)
    non_criticals_set :
        {w : Wrapper A} (options : List A) → Step w (set_non_critical_extension_options options w)
    gas_set : {w : Wrapper A} (limit : ℕ) → Step w (set_gas_limit limit w)
    fee_set : {w : Wrapper A} (coins : Coins) → Step w (set_fee_amount coins w)
    payer_set : {w : Wrapper A} (payer : List ℕ) → Step w (set_fee_payer proto payer w)
    granter_set : {w : Wrapper A} (granter : List ℕ) → Step w (set_fee_granter proto granter w)
    signatures_set :
        {w w' : Wrapper A} (sigs : List (SignatureV2 K)) (e : set_signatures proto sigs w ≡ ok w')
        → Step w w'
    body_read :
        {w w' : Wrapper A} (bz : List ℕ) (e : get_body_bytes proto w ≡ ok (bz, w')) → Step w w'
    auth_info_read :
        {w w' : Wrapper A} (bz : List ℕ) (e : get_auth_info_bytes proto w ≡ ok (bz, w')) → Step w w'

  with_body-Coherent : (w : Wrapper A) (body : TxBody A) → Coherent w → Coherent (with_body w body)
  unfolding with_body
  with_body-Coherent w body h = record { body = λ e. cc; auth_info = h.auth_info }

  with_auth_info-Coherent :
      (w : Wrapper A) (auth_info : AuthInfo A) → Coherent w → Coherent (with_auth_info w auth_info)
  unfolding with_auth_info
  with_auth_info-Coherent w auth_info h = record { body = h.body; auth_info = λ e. cc }

  set_raw_signatures-Coherent :
      (w : Wrapper A) (sigs : List (List ℕ)) → Coherent w → Coherent (set_raw_signatures sigs w)
  unfolding set_raw_signatures
  set_raw_signatures-Coherent w sigs h = record { body = h.body; auth_info = h.auth_info }

  set_msgs-Coherent :
      (w w' : Wrapper A) (msgs : List Msg)
      → set_msgs proto msgs w ≡ ok w'
      → Coherent w
      → Coherent w'
  unfolding set_msgs
  set_msgs-Coherent w w' msgs e h =
      let (anys, _, e1) = >>=-eq-ok (pack_msgs proto msgs) (λ anys. ok (with_messages w anys)) e in
      let built : Coherent (with_messages w anys) =
        unfold with_messages in with_body-Coherent w _ h in
      rw (ok-injective e1) at built

  set_signatures-Coherent :
      (w w' : Wrapper A) (sigs : List (SignatureV2 K))
      → set_signatures proto sigs w ≡ ok w'
      → Coherent w
      → Coherent w'
  unfolding set_signatures
  set_signatures-Coherent w w' sigs e h =
      let (made, _, e1) =
        >>=-eq-ok (signer_infos_of proto sigs)
          (λ made. ok (set_raw_signatures made.1 (set_signer_infos made.0 w))) e in
      let informed : Coherent (set_signer_infos made.0 w) =
        unfold set_signer_infos in with_auth_info-Coherent w _ h in
      let built : Coherent (set_raw_signatures made.1 (set_signer_infos made.0 w)) =
        set_raw_signatures-Coherent (set_signer_infos made.0 w) made.1 informed in
      rw (ok-injective e1) at built

  module _ (decodes : Decodes) where
    -- The builder behind a call that reads its bytes, and the bytes.
    abbrev body_filled : Wrapper A → List ℕ → Wrapper A
    body_filled w bz = record {
      tx = w.tx;
      body_bz = bz;
      auth_info_bz = w.auth_info_bz;
      tx_body_has_unknown_non_criticals = w.tx_body_has_unknown_non_criticals;
    }

    abbrev ReadsBody : Wrapper A → List ℕ × Wrapper A → Type 0
    ReadsBody w (bz, w') = (proto.unmarshal_body bz ≡ ok w.tx.body) × (w'.tx ≡ w.tx) × Coherent w'

    pub get_body_bytes-ReadsBody :
        (w : Wrapper A) (read : List ℕ × Wrapper A)
        → Coherent w
        → get_body_bytes proto w ≡ ok read
        → ReadsBody w read
    unfolding get_body_bytes
    get_body_bytes-ReadsBody w read h e = elim (Bool-cases (length w.body_bz == 0)) [
      | inl empty ↦
          let (bz, made, e1) =
            >>=-eq-ok (must (proto.marshal_body w.tx.body)) (λ bz. ok (bz, body_filled w bz))
              (if-true _ _ _ empty e) in
          let back =
            decodes.body_decodes w.tx.body bz (must-eq-ok (proto.marshal_body w.tx.body) bz made) in
          let kept : ReadsBody w (bz, body_filled w bz) =
            (back, refl, record { body = λ g. back; auth_info = h.auth_info }) in
          subst (ReadsBody w) (ok-injective e1) kept
      | inr filled ↦
          let kept : ReadsBody w (w.body_bz, w) = (h.body filled, refl, h) in
          subst (ReadsBody w) (ok-injective (if-false _ _ _ filled e)) kept
    ]

    abbrev auth_info_filled : Wrapper A → List ℕ → Wrapper A
    auth_info_filled w bz = record {
      tx = w.tx;
      body_bz = w.body_bz;
      auth_info_bz = bz;
      tx_body_has_unknown_non_criticals = w.tx_body_has_unknown_non_criticals;
    }

    abbrev ReadsAuthInfo : Wrapper A → List ℕ × Wrapper A → Type 0
    ReadsAuthInfo w (bz, w') =
        (proto.unmarshal_auth_info bz ≡ ok w.tx.auth_info) × (w'.tx ≡ w.tx) × Coherent w'

    pub get_auth_info_bytes-ReadsAuthInfo :
        (w : Wrapper A) (read : List ℕ × Wrapper A)
        → Coherent w
        → get_auth_info_bytes proto w ≡ ok read
        → ReadsAuthInfo w read
    unfolding get_auth_info_bytes
    get_auth_info_bytes-ReadsAuthInfo w read h e = elim (Bool-cases (length w.auth_info_bz == 0)) [
      | inl empty ↦
          let (bz, made, e1) =
            >>=-eq-ok (must (proto.marshal_auth_info w.tx.auth_info))
              (λ bz. ok (bz, auth_info_filled w bz)) (if-true _ _ _ empty e) in
          let back =
            decodes.auth_info_decodes w.tx.auth_info bz
              (must-eq-ok (proto.marshal_auth_info w.tx.auth_info) bz made) in
          let kept : ReadsAuthInfo w (bz, auth_info_filled w bz) =
            (back, refl, record { body = h.body; auth_info = λ g. back }) in
          subst (ReadsAuthInfo w) (ok-injective e1) kept
      | inr filled ↦
          let kept : ReadsAuthInfo w (w.auth_info_bz, w) = (h.auth_info filled, refl, h) in
          subst (ReadsAuthInfo w) (ok-injective (if-false _ _ _ filled e)) kept
    ]

    pub Step-Coherent : (w w' : Wrapper A) → Step w w' → Coherent w → Coherent w'
    unfolding set_timeout_height set_memo set_extension_options set_non_critical_extension_options
        set_gas_limit set_fee_amount set_fee_payer set_fee_granter with_fee
    Step-Coherent w w' (msgs_set msgs e) h = set_msgs-Coherent w w' msgs e h
    Step-Coherent w w' (timeout_set height) h = with_body-Coherent w _ h
    Step-Coherent w w' (memo_set memo) h = with_body-Coherent w _ h
    Step-Coherent w w' (extensions_set options) h = with_body-Coherent w _ h
    Step-Coherent w w' (non_criticals_set options) h = with_body-Coherent w _ h
    Step-Coherent w w' (gas_set limit) h = with_auth_info-Coherent w _ h
    Step-Coherent w w' (fee_set coins) h = with_auth_info-Coherent w _ h
    Step-Coherent w w' (payer_set payer) h = with_auth_info-Coherent w _ h
    Step-Coherent w w' (granter_set granter) h = with_auth_info-Coherent w _ h
    Step-Coherent w w' (signatures_set sigs e) h = set_signatures-Coherent w w' sigs e h
    Step-Coherent w w' (body_read bz e) h = (get_body_bytes-ReadsBody w (bz, w') h e).2
    Step-Coherent w w' (auth_info_read bz e) h =
        (get_auth_info_bytes-ReadsAuthInfo w (bz, w') h e).2
