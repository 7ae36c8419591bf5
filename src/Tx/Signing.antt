-- ===== src/Tx/Signing.antt =====
-- What is signed, and what is sent, is the transaction that the builder of types/tx/builder.go holds.
use plugchain_sdk_go.Prelude.{
  ℕ, ◌≡◌, refl, sym, ap, ◌∙◌, Bool, true, not, ◌==◌, List, Option, some, Result, ok, err, panic,
  >>=-eq-ok, ok-injective, err_if-passed, unexpected_mode,
}
use mathlib.Core.Path.{subst}
use plugchain_sdk_go.UnknownFields.{
  Wire, Verdict, passed, rejected, crashed, out_of_fuel, reject_unknown_fields,
  reject_unknown_fields_strict,
}
use plugchain_sdk_go.Tx.{ProtoTx, TxRaw, SignDoc, Proto}
use plugchain_sdk_go.Tx.Wrapper.{Wrapper, wrap_tx, new_builder, get_body_bytes, get_auth_info_bytes}
use plugchain_sdk_go.Tx.Coding.{
  sign_mode_direct, accepted, on_value, direct_sign_bytes, get_sign_bytes, encode, unmarshal_parts,
  decode_raw, decode,
}
use plugchain_sdk_go.Tx.Kept.{
  Decodes, Coherent, Step, Step-Coherent, get_body_bytes-ReadsBody,
  get_auth_info_bytes-ReadsAuthInfo,
}

-- A call that comes to a value has passed the check, and the decoding, before it.
accepted-some :
    {B : Type 0} (v : Verdict) (next : Bool → Option (Result B)) (b : B)
    → accepted v next ≡ some (ok b)
    → (flag : Bool) × (next flag ≡ some (ok b))
accepted-some (passed flag) next b e = (flag, e)
accepted-some (rejected flag x) next b e = cc
accepted-some (crashed p) next b e = cc
accepted-some out_of_fuel next b e = cc

on_value-some :
    {B C : Type 0} (m : Result B) (next : B → Option (Result C)) (c : C)
    → on_value m next ≡ some (ok c)
    → (b : B) × (m ≡ ok b) × (next b ≡ some (ok c))
on_value-some (ok b) next c e = (b, refl, e)
on_value-some (err x) next c e = cc
on_value-some (panic p) next c e = cc

some-injective : {B : Type 0} (a b : B) → some a ≡ some b → a ≡ b
some-injective a b e = cc

module _ {A K Msg : Type 0} (proto : Proto A K Msg) where
  module _ {M : Type 0} (wire : Wire M) (tx_raw tx_body : M) where
    -- The builders there are: new ones, wrapped or decoded transactions, and what the calls make of them.
    pub data Built : Wrapper A → Type 0 where
      fresh : Built new_builder
      wrapped : (tx : ProtoTx A) → Built (wrap_tx tx)
      decoded :
          {w : Wrapper A} (bz : List ℕ) (e : decode proto wire tx_raw tx_body bz ≡ some (ok w))
          → Built w
      changed : {w w' : Wrapper A} (built : Built w) (step : Step proto w w') → Built w'

  wrap_tx-Coherent : (tx : ProtoTx A) → Coherent proto (wrap_tx tx)
  unfolding wrap_tx
  wrap_tx-Coherent tx = record { body = λ e. cc; auth_info = λ e. cc }

  unmarshal_parts-Coherent :
      (raw : TxRaw) (flag : Bool) (w : Wrapper A)
      → unmarshal_parts proto raw flag ≡ ok w
      → Coherent proto w
  unfolding unmarshal_parts
  unmarshal_parts-Coherent raw flag w e =
      let (body, b, e1) = >>=-eq-ok (proto.unmarshal_body raw.body_bytes) _ e in
      let (auth_info, a, e2) = >>=-eq-ok (proto.unmarshal_auth_info raw.auth_info_bytes) _ e1 in
      subst (Coherent proto) (ok-injective e2) (record { body = λ g. b; auth_info = λ g. a })

  module _ {M : Type 0} (wire : Wire M) (tx_raw tx_body : M) where
    decode-Coherent :
        (bz : List ℕ) (w : Wrapper A)
        → decode proto wire tx_raw tx_body bz ≡ some (ok w)
        → Coherent proto w
    unfolding decode decode_raw
    decode-Coherent bz w e =
        let (strict, e1) =
          accepted-some (reject_unknown_fields_strict wire bz tx_raw)
            (λ flag. on_value (proto.unmarshal_raw bz) (decode_raw proto wire tx_raw tx_body)) w
            e in
        let (raw, _, e2) =
          on_value-some (proto.unmarshal_raw bz) (decode_raw proto wire tx_raw tx_body) w e1 in
        let (flag, e3) =
          accepted-some (reject_unknown_fields wire raw.body_bytes tx_body true)
            (λ flag. some (unmarshal_parts proto raw flag)) w e2 in
        unmarshal_parts-Coherent raw flag w (some-injective _ _ e3)

    module _ (decodes : Decodes proto) where
      Built-Coherent : (w : Wrapper A) → Built wire tx_raw tx_body w → Coherent proto w
      unfolding new_builder
      Built-Coherent w fresh = wrap_tx-Coherent _
      Built-Coherent w (wrapped tx) = wrap_tx-Coherent tx
      Built-Coherent w (decoded bz e) = decode-Coherent bz w e
      Built-Coherent w (changed {w = v} built step) =
          Step-Coherent proto decodes v w step (Built-Coherent v built)

      -- The two readings of bytes that `GetSignBytes` and the encoder start with.
      both_read :
          (w : Wrapper A) (body auth : List ℕ × Wrapper A)
          → Coherent proto w
          → get_body_bytes proto w ≡ ok body
          → get_auth_info_bytes proto body.1 ≡ ok auth
          → (proto.unmarshal_body body.0 ≡ ok w.tx.body)
            × (proto.unmarshal_auth_info auth.0 ≡ ok w.tx.auth_info)
            × (auth.1.tx ≡ w.tx)
      both_read w body auth h e1 e2 =
          let (b, same, h1) = get_body_bytes-ReadsBody proto decodes w body h e1 in
          let (a, same1, _) = get_auth_info_bytes-ReadsAuthInfo proto decodes body.1 auth h1 e2 in
          (b, rw same at a, same1 ∙ same)

      -- Where the generated code decodes what it encodes: whatever calls have made a builder, and in
      -- whatever order, the bytes that GetSignBytes gives to be signed are a SignDoc with the chain,
      -- the account number, and bytes that decode to the body and to the information on the signers
      -- that the builder holds; the builder still holds the same transaction.
      pub get_sign_bytes-Built :
          (w w' : Wrapper A) (mode : ℕ) (chain_id : List ℕ) (account_number : ℕ) (bz : List ℕ)
          → Built wire tx_raw tx_body w
          → get_sign_bytes proto mode chain_id account_number w ≡ ok (bz, w')
          → (doc : SignDoc) × (proto.marshal_sign_doc doc ≡ ok bz)
            × (doc.chain_id ≡ chain_id)
            × (doc.account_number ≡ account_number)
            × (proto.unmarshal_body doc.body_bytes ≡ ok w.tx.body)
            × (proto.unmarshal_auth_info doc.auth_info_bytes ≡ ok w.tx.auth_info)
            × (w'.tx ≡ w.tx)
      unfolding get_sign_bytes direct_sign_bytes
      get_sign_bytes-Built w w' mode chain_id account_number bz built e =
          let (_, e1) = err_if-passed (not (mode == sign_mode_direct)) unexpected_mode _ e in
          let (body, b, e2) = >>=-eq-ok (get_body_bytes proto w) _ e1 in
          let (auth, a, e3) = >>=-eq-ok (get_auth_info_bytes proto body.1) _ e2 in
          let (signed, d, e4) =
            >>=-eq-ok (direct_sign_bytes proto body.0 auth.0 chain_id account_number) _ e3 in
          let (read, read1, same) = both_read w body auth (Built-Coherent w built) b a in
          let ends : ◌≡◌ {A = List ℕ × Wrapper A} (signed, auth.1) (bz, w') = ok-injective e4 in
          let doc : SignDoc = record {
            body_bytes = body.0;
            auth_info_bytes = auth.0;
            chain_id = chain_id;
            account_number = account_number;
          } in
          let bytes : proto.marshal_sign_doc doc ≡ ok bz = d ∙ ap (λ p. ok p.0) ends in
          (doc, bytes, refl, refl, read, read1, ap (λ p. p.1.tx) (sym ends) ∙ same)

      -- What is sent is a `TxRaw` that holds the same.
      encode-Built :
          (w w' : Wrapper A) (bz : List ℕ)
          → Built wire tx_raw tx_body w
          → encode proto w ≡ ok (bz, w')
          → (raw : TxRaw) × (proto.marshal_raw raw ≡ ok bz)
            × (raw.signatures ≡ w.tx.signatures)
            × (proto.unmarshal_body raw.body_bytes ≡ ok w.tx.body)
            × (proto.unmarshal_auth_info raw.auth_info_bytes ≡ ok w.tx.auth_info)
      unfolding encode
      encode-Built w w' bz built e =
          let (body, b, e2) = >>=-eq-ok (get_body_bytes proto w) _ e in
          let (auth, a, e3) = >>=-eq-ok (get_auth_info_bytes proto body.1) _ e2 in
          let raw : TxRaw = record {
            body_bytes = body.0;
            auth_info_bytes = auth.0;
            signatures = w.tx.signatures;
          } in
          let (sent, d, e4) = >>=-eq-ok (proto.marshal_raw raw) _ e3 in
          let (read, read1, same) = both_read w body auth (Built-Coherent w built) b a in
          let ends : ◌≡◌ {A = List ℕ × Wrapper A} (sent, auth.1) (bz, w') = ok-injective e4 in
          let bytes : proto.marshal_raw raw ≡ ok bz = d ∙ ap (λ p. ok p.0) ends in
          (raw, bytes, refl, read, read1)

      -- Where the generated code decodes what it encodes: whatever calls have made a builder, and in
      -- whatever order, the bytes that the encoder gives for it are decoded to the transaction that
      -- it holds, if the checks for unknown fields accept these bytes and those of the body in them.
      pub decode-encode :
          (w w' : Wrapper A) (bz : List ℕ) (strict flag : Bool)
          → Built wire tx_raw tx_body w
          → encode proto w ≡ ok (bz, w')
          → ((raw : TxRaw) → proto.marshal_raw raw ≡ ok bz → proto.unmarshal_raw bz ≡ ok raw)
          → reject_unknown_fields_strict wire bz tx_raw ≡ passed strict
          → ((raw : TxRaw)
              → proto.unmarshal_raw bz ≡ ok raw
              → reject_unknown_fields wire raw.body_bytes tx_body true ≡ passed flag)
          → (w2 : Wrapper A) × (decode proto wire tx_raw tx_body bz ≡ some (ok w2))
            × (w2.tx ≡ w.tx)
            × (w2.tx_body_has_unknown_non_criticals ≡ flag)
      unfolding decode decode_raw unmarshal_parts
      decode-encode w w' bz strict flag built e back root body =
          let (raw, sent, sigs, read, read1) = encode-Built w w' bz built e in
          let found = back raw sent in
          let w2 : Wrapper A = record {
            tx = record {
              body = w.tx.body;
              auth_info = w.tx.auth_info;
              signatures = raw.signatures;
            };
            body_bz = raw.body_bytes;
            auth_info_bz = raw.auth_info_bytes;
            tx_body_has_unknown_non_criticals = flag;
          } in
          let same : w2.tx ≡ w.tx =
            ap (λ s. record { body = w.tx.body; auth_info = w.tx.auth_info; signatures = s })
              sigs in
          (w2, rw (root, found, body raw found, read, read1) refl, same, refl)
