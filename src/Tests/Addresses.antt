-- ===== src/Tests/Addresses.antt =====
-- An address with a text that is its prefix, behind the length of the prefix, and its bytes.
use plugchain_sdk_go.Prelude.{
  ℕ, ◌≡◌, refl, arith, List, [], ◌∷◌, ◌++◌, length, take, drop, take-length-append,
  drop-length-append, Result, ok, err, empty_text,
}
use plugchain_sdk_go.Address.{
  Bech32, acc_address_from_bech32, validate_acc_address, val_address_from_bech32,
  acc_address_string, val_address_string,
}
use plugchain_sdk_go.Address.Read.{Decodes, acc_address_from_bech32-acc_address_string}

abbrev parts_of : List ℕ → Result (List ℕ × List ℕ)
parts_of [] = err empty_text
parts_of (n ∷ text) = ok (take n text, drop n text)

abbrev plain_bech32 : Bech32 (List ℕ)
plain_bech32 = record {
  convert_bits = λ bz from_ to pad. ok bz;
  encode = λ hrp bz. ok (length hrp ∷ hrp ++ bz);
  decode = parts_of;
  pub_key_from_bytes = λ bz. ok bz;
  key_bytes = λ key. key;
}

parts_back :
    (hrp bz text : List ℕ) → ok (length hrp ∷ hrp ++ bz) ≡ ok text → parts_of text ≡ ok (hrp, bz)
parts_back hrp bz text e =
    let same : length hrp ∷ hrp ++ bz ≡ text = cc in
    rw (← same, take-length-append hrp bz, drop-length-append hrp bz) refl

plain_bech32-Decodes : Decodes plain_bech32
plain_bech32-Decodes = record {
  bits_back = λ bz converted e. let same : bz ≡ converted = cc in rw same refl;
  text_back = λ hrp bz text plain e short. parts_back hrp bz text e;
  text_filled =
      λ hrp bz text e. let same : length hrp ∷ hrp ++ bz ≡ text = cc in rw (← same) (ground arith);
}

acc_address_from_bech32-acc_address_string_example :
    (acc_address_from_bech32 plain_bech32 (2 ∷ b'g' ∷ b'x' ∷ 7 ∷ 9 ∷ []) ≡ ok (7 ∷ 9 ∷ []))
    × (validate_acc_address plain_bech32 (2 ∷ b'g' ∷ b'x' ∷ 7 ∷ 9 ∷ []) ≡ ok tt)
    × (val_address_string plain_bech32 (7 ∷ 9 ∷ []) ≡ ok (2 ∷ b'g' ∷ b'x' ∷ 7 ∷ 9 ∷ []))
    × (val_address_from_bech32 plain_bech32 (2 ∷ b'g' ∷ b'x' ∷ 7 ∷ 9 ∷ []) ≡ ok (7 ∷ 9 ∷ []))
unfolding acc_address_string
acc_address_from_bech32-acc_address_string_example =
    acc_address_from_bech32-acc_address_string plain_bech32 plain_bech32-Decodes (7 ∷ 9 ∷ [])
      (2 ∷ b'g' ∷ b'x' ∷ 7 ∷ 9 ∷ []) refl refl (omega arith)
