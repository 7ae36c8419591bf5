-- ===== src/Address/Read.antt =====
-- The texts of addresses and of public keys of types/address.go are read back.
use plugchain_sdk_go.Prelude.{
  ℕ, ◌≤◌, ◌≡◌, refl, ap, true, false, ◌&&◌, leb, ◌==◌, if-false, List, length, All, ok, ◌>>=◌,
  >>=-eq-ok, must-eq-ok,
}
use plugchain_sdk_go.Denom.Order.{denom_eq_self}
use plugchain_sdk_go.Address.{
  Bech32, account_addr_prefix, convert_and_encode, decode_and_convert, get_from_bech32,
  acc_address_from_bech32, validate_acc_address, val_address_from_bech32, acc_address_string,
  val_address_string,
}

-- A prefix of one or more small letters.
abbrev pub IsPrefix : List ℕ → Type 0
IsPrefix hrp = ((length hrp == 0) ≡ false) × All (λ c. (leb b'a' c && leb c b'z') ≡ true) hrp

-- What the library promises: groups of bits are put together again, and a text of at most 90 bytes that it
-- writes with a prefix of one or more small letters is not empty and is read back.
pub record Decodes {K : Type 0} (bech32 : Bech32 K) : Type 0 where
  pub bits_back :
      (bz converted : List ℕ)
      → bech32.convert_bits bz 8 5 true ≡ ok converted
      → bech32.convert_bits converted 5 8 false ≡ ok bz
  pub text_back :
      (hrp bz text : List ℕ)
      → IsPrefix hrp
      → bech32.encode hrp bz ≡ ok text
      → length text ≤ 90
      → bech32.decode text ≡ ok (hrp, bz)
  pub text_filled :
      (hrp bz text : List ℕ) → bech32.encode hrp bz ≡ ok text → (length text == 0) ≡ false

module _ {K : Type 0} (bech32 : Bech32 K) (decodes : Decodes bech32) where
  get_from_bech32-convert_and_encode :
      (hrp bz text : List ℕ)
      → IsPrefix hrp
      → convert_and_encode bech32 hrp bz ≡ ok text
      → length text ≤ 90
      → get_from_bech32 bech32 text hrp ≡ ok bz
  unfolding get_from_bech32 decode_and_convert convert_and_encode
  get_from_bech32-convert_and_encode hrp bz text plain e short =
      let (converted, e1, e2) = >>=-eq-ok (bech32.convert_bits bz 8 5 true) _ e in
      let filled = decodes.text_filled hrp converted text e2 in
      let read = decodes.text_back hrp converted text plain e2 short in
      let back = decodes.bits_back bz converted e1 in
      rw (filled, read, back, denom_eq_self hrp) refl

  -- Where the library reads back what it writes: the text of an account address that is not
  -- empty, if it has at most 90 bytes, is accepted and read as this address; since the prefixes
  -- are the same, it is the text of the validator address with these bytes as well, and is read
  -- as that.
  pub acc_address_from_bech32-acc_address_string :
      (addr text : List ℕ)
      → (length addr == 0) ≡ false
      → acc_address_string bech32 addr ≡ ok text
      → length text ≤ 90
      → (acc_address_from_bech32 bech32 text ≡ ok addr)
        × (validate_acc_address bech32 text ≡ ok tt)
        × (val_address_string bech32 addr ≡ ok text)
        × (val_address_from_bech32 bech32 text ≡ ok addr)
  unfolding acc_address_from_bech32 validate_acc_address val_address_string val_address_from_bech32
      acc_address_string
  acc_address_from_bech32-acc_address_string addr text filled e short =
      let e1 = if-false _ _ _ filled e in
      let written = must-eq-ok (convert_and_encode bech32 account_addr_prefix addr) text e1 in
      let read : get_from_bech32 bech32 text account_addr_prefix ≡ ok addr =
        get_from_bech32-convert_and_encode account_addr_prefix addr text (refl, (refl, (refl, tt)))
          written short in
      (read, ap (λ r. r >>= λ bz. ok tt) read, e1, read)
