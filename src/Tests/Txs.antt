-- ===== src/Tests/Txs.antt =====
-- A run of types/tx on small encodings: a body is its memo, there is nothing on the signers, and an `Any` is
-- a number, a key and a message that the address of this number signs.
use plugchain_sdk_go.Prelude.{
  ℕ, zero, suc, ◌≡◌, refl, ap, true, false, List, [], ◌∷◌, ◌++◌, length, map, inl, inr, Option,
  none, some, Result, ok, err, invalid_size,
}
use plugchain_sdk_go.Denom.{compare_denom}
use plugchain_sdk_go.UnknownFields.{
  passed, reject_unknown_fields, reject_unknown_fields_strict, reject_on_fuel, reject_loop,
  tag_round, value_round, check_fields, check_field, check_value, check_untyped, field_of,
  can_encode_type,
}
use plugchain_sdk_go.Tx.{
  SignatureData, single, multi, nil, cons, no_data, SignerInfo, SignatureV2, TxBody, Fee, AuthInfo,
  ProtoTx, TxRaw, SignDoc, Proto, single_mode, multi_mode, no_mode, none_left, and_mode,
}
use plugchain_sdk_go.Tx.Signatures.{to_mode_info, IsComplete, MultiDecodes}
use plugchain_sdk_go.Tx.Wrapper.{
  Wrapper, wrap_tx, new_builder, empty_body, with_body, set_memo, set_signer_infos,
  set_raw_signatures, get_body_bytes, get_auth_info_bytes,
}
use plugchain_sdk_go.Tx.Signed.{
  set_signatures, signer_infos_of, signer_info, pub_key_to_any, get_signatures_v2,
}
use plugchain_sdk_go.Tx.Coding.{get_sign_bytes, direct_sign_bytes, encode, decode}
use plugchain_sdk_go.Tx.Signers.{
  is_seen, get_msgs, msgs_of, get_signers, signers_loop, add_signers, add_signer,
}
use plugchain_sdk_go.Tx.Kept.{Decodes, memo_set}
use plugchain_sdk_go.Tx.Signing.{Built, wrapped, changed, get_sign_bytes-Built, decode-encode}
use plugchain_sdk_go.Tx.Returned.{checked, get_signatures_v2-set_signatures}
use plugchain_sdk_go.Tx.Everyone.{AllDistinct, texts, all_signers, get_signers_lem}
use plugchain_sdk_go.Tests.Wires.{node_wire}

abbrev Msg : Type 0
Msg = List (List ℕ)

-- A number stands one higher, so that 0 ends a signature.
abbrev ended : List ℕ → List ℕ → List ℕ
ended [] bz = 0 ∷ bz
ended (x ∷ xs) bz = suc x ∷ ended xs bz

abbrev joined : List (List ℕ) → List ℕ
joined [] = []
joined (s ∷ ss) = ended s (joined ss)

abbrev pushed : ℕ → List (List ℕ) → List (List ℕ)
pushed x [] = (x ∷ []) ∷ []
pushed x (s ∷ ss) = (x ∷ s) ∷ ss

abbrev parted : List ℕ → List (List ℕ)
parted [] = []
parted (zero ∷ bz) = [] ∷ parted bz
parted (suc x ∷ bz) = pushed x (parted bz)

parted-ended : (s bz : List ℕ) → parted (ended s bz) ≡ s ∷ parted bz
parted-ended [] bz = refl
parted-ended (x ∷ s) bz = ap (pushed x) (parted-ended s bz)

parted-joined : (ss : List (List ℕ)) → parted (joined ss) ≡ ss
parted-joined [] = refl
parted-joined (s ∷ ss) = rw (parted-ended s (joined ss), parted-joined ss) refl

abbrev memo_only : List ℕ → ℕ → List ℕ → List ℕ → List ℕ → Result (List ℕ)
memo_only [] zero [] [] memo = ok memo
memo_only _ _ _ _ _ = err invalid_size

abbrev body_of : List ℕ → TxBody ℕ
body_of memo = record {
  messages = [];
  memo = memo;
  timeout_height = 0;
  extension_options = [];
  non_critical_extension_options = [];
}

memo_only-body_of :
    (ms : List ℕ) (t : ℕ) (es ns memo bz : List ℕ)
    → memo_only ms t es ns memo ≡ ok bz
    → body_of bz ≡ record {
      messages = ms;
      memo = memo;
      timeout_height = t;
      extension_options = es;
      non_critical_extension_options = ns;
    }
memo_only-body_of [] zero [] [] memo bz e = let same : memo ≡ bz = cc in rw same refl
memo_only-body_of [] zero [] (n ∷ ns) memo bz e = cc
memo_only-body_of [] zero (x ∷ es) ns memo bz e = cc
memo_only-body_of [] (suc t) es ns memo bz e = cc
memo_only-body_of (m ∷ ms) t es ns memo bz e = cc

abbrev empty_only : List (SignerInfo ℕ) → Option Fee → Result (List ℕ)
empty_only [] none = ok []
empty_only _ _ = err invalid_size

abbrev no_auth_info : AuthInfo ℕ
no_auth_info = record { signer_infos = []; fee = none }

empty_only-no_auth_info :
    (infos : List (SignerInfo ℕ)) (fee : Option Fee) (bz : List ℕ)
    → empty_only infos fee ≡ ok bz
    → no_auth_info ≡ record { signer_infos = infos; fee = fee }
empty_only-no_auth_info [] none bz e = refl
empty_only-no_auth_info [] (some fee) bz e = cc
empty_only-no_auth_info (i ∷ infos) fee bz e = cc

-- A field of number 2 that is a text.
abbrev raw_only : List ℕ → List ℕ → List (List ℕ) → Result (List ℕ)
raw_only body [] [] = ok (2 ∷ 2 ∷ length body ∷ body)
raw_only _ _ _ = err invalid_size

abbrev raw_of : List ℕ → Result TxRaw
raw_of (t ∷ w ∷ n ∷ body) = ok (record { body_bytes = body; auth_info_bytes = []; signatures = [] })
raw_of _ = err invalid_size

raw_only-raw_of :
    (body auth : List ℕ) (sigs : List (List ℕ)) (bz : List ℕ)
    → raw_only body auth sigs ≡ ok bz
    → raw_of bz ≡ ok (record { body_bytes = body; auth_info_bytes = auth; signatures = sigs })
raw_only-raw_of body [] [] bz e =
    let same : 2 ∷ 2 ∷ length body ∷ body ≡ bz = cc in rw (← same) refl
raw_only-raw_of body [] (s ∷ sigs) bz e = cc
raw_only-raw_of body (a ∷ auth) sigs bz e = cc

abbrev small_proto : Proto ℕ ℕ Msg
small_proto = record {
  marshal_multi = λ sigs. ok (joined sigs);
  unmarshal_multi = λ bz. ok (parted bz, []);
  marshal_body = λ b.
      memo_only b.messages b.timeout_height b.extension_options b.non_critical_extension_options
        b.memo;
  unmarshal_body = λ bz. ok (body_of bz);
  marshal_auth_info = λ a. empty_only a.signer_infos a.fee;
  unmarshal_auth_info = λ bz. ok no_auth_info;
  marshal_raw = λ r. raw_only r.body_bytes r.auth_info_bytes r.signatures;
  unmarshal_raw = raw_of;
  marshal_sign_doc = λ d. ok (d.account_number ∷ d.chain_id ++ d.body_bytes);
  is_proto_message = λ k. true;
  pack_key = λ k. ok k;
  pack_msg = λ m. err invalid_size;
  cached_key = λ a. some a;
  cached_msg = λ a. some ((a ∷ []) ∷ []);
  msg_signers = λ m. m;
  address_string = λ a. a;
  acc_address_from_bech32 = λ a. ok a;
}

small_proto-Decodes : Decodes small_proto
small_proto-Decodes = record {
  body_decodes = λ b bz e. ap ok (
      memo_only-body_of b.messages b.timeout_height b.extension_options
        b.non_critical_extension_options b.memo bz e);
  auth_info_decodes = λ a bz e. ap ok (empty_only-no_auth_info a.signer_infos a.fee bz e);
}

multi_decodes : MultiDecodes small_proto
multi_decodes sigs = (joined sigs, refl, ap (λ s. ok (s, [])) (parted-joined sigs))

-- Two signatures, one of two signatures itself.
abbrev nested_data : SignatureData
nested_data =
    multi none (cons (single 1 (4 ∷ [])) (cons (multi none (cons (single 1 (5 ∷ [])) nil)) nil))

-- A builder of a transaction without a fee, and then with a memo.
abbrev bare_tx : ProtoTx ℕ
bare_tx = record { body = empty_body; auth_info = no_auth_info; signatures = [] }

abbrev memo : List ℕ
memo = 2 ∷ 2 ∷ 0 ∷ []

abbrev with_memo : Wrapper ℕ
with_memo = set_memo memo (wrap_tx bare_tx)

abbrev read_memo : Wrapper ℕ
read_memo = record {
  tx = record { body = body_of memo; auth_info = no_auth_info; signatures = [] };
  body_bz = memo;
  auth_info_bz = [];
  tx_body_has_unknown_non_criticals = false;
}

with_memo-Built : Built small_proto node_wire tt tt with_memo
with_memo-Built = changed (wrapped bare_tx) (memo_set memo)

memo_signed : get_sign_bytes small_proto 1 (b'c' ∷ []) 7 with_memo ≡ ok (7 ∷ b'c' ∷ memo, read_memo)
unfolding get_sign_bytes direct_sign_bytes get_body_bytes get_auth_info_bytes set_memo with_body
    wrap_tx
memo_signed = refl

get_sign_bytes-Built_example :
    (doc : SignDoc) × (small_proto.marshal_sign_doc doc ≡ ok (7 ∷ b'c' ∷ memo))
    × (doc.chain_id ≡ b'c' ∷ [])
    × (doc.account_number ≡ 7)
    × (small_proto.unmarshal_body doc.body_bytes ≡ ok with_memo.tx.body)
    × (small_proto.unmarshal_auth_info doc.auth_info_bytes ≡ ok with_memo.tx.auth_info)
    × (read_memo.tx ≡ with_memo.tx)
get_sign_bytes-Built_example =
    get_sign_bytes-Built small_proto node_wire tt tt small_proto-Decodes with_memo read_memo 1
      (b'c' ∷ []) 7 (7 ∷ b'c' ∷ memo) with_memo-Built memo_signed

memo_sent : encode small_proto with_memo ≡ ok (2 ∷ 2 ∷ 3 ∷ memo, read_memo)
unfolding encode get_body_bytes get_auth_info_bytes set_memo with_body wrap_tx
memo_sent = refl

root_accepted : reject_unknown_fields_strict node_wire (2 ∷ 2 ∷ 3 ∷ memo) tt ≡ passed false
unfolding reject_unknown_fields_strict reject_unknown_fields reject_on_fuel reject_loop tag_round
    value_round check_fields check_field check_value field_of can_encode_type compare_denom
    check_untyped
root_accepted = refl

memo_accepted : reject_unknown_fields node_wire memo tt true ≡ passed false
unfolding reject_unknown_fields reject_on_fuel reject_loop tag_round value_round check_fields
    check_field check_value field_of can_encode_type compare_denom check_untyped
memo_accepted = refl

body_accepted :
    (raw : TxRaw)
    → raw_of (2 ∷ 2 ∷ 3 ∷ memo) ≡ ok raw
    → reject_unknown_fields node_wire raw.body_bytes tt true ≡ passed false
body_accepted raw e =
    let same : record { body_bytes = memo; auth_info_bytes = []; signatures = [] } ≡ raw = cc in
    rw (← same) memo_accepted

decode-encode_example :
    (w2 : Wrapper ℕ) × (decode small_proto node_wire tt tt (2 ∷ 2 ∷ 3 ∷ memo) ≡ some (ok w2))
    × (w2.tx ≡ with_memo.tx)
    × (w2.tx_body_has_unknown_non_criticals ≡ false)
decode-encode_example =
    decode-encode small_proto node_wire tt tt small_proto-Decodes with_memo read_memo
      (2 ∷ 2 ∷ 3 ∷ memo) false false with_memo-Built memo_sent
      (λ raw e. raw_only-raw_of raw.body_bytes raw.auth_info_bytes raw.signatures _ e) root_accepted
      body_accepted

-- One signature with its parts, and a simulated one without a signature.
abbrev two_signatures : List (SignatureV2 ℕ)
two_signatures =
    record { pub_key = some 3; data_ = nested_data; sequence = 9; skip_sequence_check = true }
    ∷ record { pub_key = some 4; data_ = no_data; sequence = 0; skip_sequence_check = false }
    ∷ []

abbrev signed_tx : Wrapper ℕ
signed_tx = set_raw_signatures ((5 ∷ 0 ∷ 7 ∷ 1 ∷ 0 ∷ []) ∷ [] ∷ []) (
    set_signer_infos
      (record {
        public_key = some 3;
        mode_info = multi_mode none (
            and_mode (single_mode 1)
              (and_mode (multi_mode none (and_mode (single_mode 1) none_left)) none_left));
        sequence = 9;
      }
        ∷ record { public_key = some 4; mode_info = no_mode; sequence = 0 }
        ∷ [])
      new_builder)

two_signatures-set : set_signatures small_proto two_signatures new_builder ≡ ok signed_tx
unfolding set_signatures signer_infos_of signer_info pub_key_to_any to_mode_info
two_signatures-set = refl

get_signatures_v2-set_signatures_example :
    get_signatures_v2 small_proto signed_tx ≡ ok (map checked two_signatures)
unfolding IsComplete
get_signatures_v2-set_signatures_example =
    get_signatures_v2-set_signatures small_proto multi_decodes
      (λ key any e. ap some (keys_same key any e)) two_signatures new_builder signed_tx
      (inl (tt, ((tt, tt), tt)), (inr (refl, refl), tt)) two_signatures-set
  where
    keys_same : (key any : ℕ) → ok key ≡ ok any → any ≡ key
    keys_same key any e = cc

-- Three messages, the last signed by the signer of the first.
abbrev three_messages : ProtoTx ℕ
three_messages = record {
  body = record {
    messages = 1 ∷ 2 ∷ 1 ∷ [];
    memo = [];
    timeout_height = 0;
    extension_options = [];
    non_critical_extension_options = [];
  };
  auth_info = no_auth_info;
  signatures = [];
}

abbrev three_signers : List Msg
three_signers = ((1 ∷ []) ∷ []) ∷ ((2 ∷ []) ∷ []) ∷ ((1 ∷ []) ∷ []) ∷ []

messages_found : get_msgs small_proto three_messages ≡ ok three_signers
unfolding get_msgs msgs_of
messages_found = refl

signers_found : get_signers small_proto three_messages ≡ ok ((1 ∷ []) ∷ (2 ∷ []) ∷ [])
unfolding get_signers get_msgs msgs_of signers_loop add_signers add_signer compare_denom
signers_found = refl

get_signers_lem_example :
    AllDistinct (texts small_proto ((1 ∷ []) ∷ (2 ∷ []) ∷ []))
    × ((s : List ℕ)
        → is_seen s (texts small_proto ((1 ∷ []) ∷ (2 ∷ []) ∷ []))
          ≡ is_seen s (texts small_proto (all_signers small_proto three_signers)))
get_signers_lem_example =
    get_signers_lem small_proto three_messages three_signers ((1 ∷ []) ∷ (2 ∷ []) ∷ [])
      messages_found signers_found
