-- ===== src/HdPath/Levels.antt =====
-- `DerivePrivateKeyForPath` of crypto/hd/hdpath.go, on the string of a BIP 44 path.
use plugchain_sdk_go.Prelude.{
  ℕ, ◌≡◌, refl, ◌∙◌, arith, Bool, true, false, ◌+◌, ◌%◌, ◌^◌, ◌++◌, take, drop, ◌==◌, if◌then◌else◌,
  List, [], ◌∷◌, length, ok,
}
use plugchain_sdk_go.Prelude.Text.{print, print-IsDigit, print-cons}
use plugchain_sdk_go.HdPath.{Bip44Params, path_string}
use plugchain_sdk_go.HdPath.RoundTrip.{
  IsUint32, IsBip44, apostrophe, trim_apostrophe_suffix, is_hardened_suffix, plain_digits,
  parse_uint32-print, change_field, split_on-path_string,
}
use plugchain_sdk_go.HdPath.Derive.{
  copied, uint32_to_bytes, harden_index, i64, add_scalars, Crypto, derive_private_key, derive_loop,
  derive_private_key_for_path,
}

suffix-not_empty : (s : List ℕ) → (length (apostrophe s) == 0) ≡ false
unfolding apostrophe
suffix-not_empty [] = refl
suffix-not_empty (c ∷ s) = ground arith

print-not_empty : (n : ℕ) → (length (print n) == 0) ≡ false
print-not_empty n = let (c, cs, e) = print-cons n in rw e (ground arith)

change_small : (change : Bool) → IsUint32 (if change then 1 else 0)
change_small true = omega arith
change_small false = omega arith

change_field-print : (change : Bool) → change_field change ≡ print (if change then 1 else 0)
unfolding print
change_field-print true = refl
change_field-print false = refl

-- The bit 31 is set.
harden_index_lem : (i : ℕ) → IsUint32 i → harden_index i ≡ i % 2 ^ 31 + 2 ^ 31
unfolding harden_index
harden_index_lem i h = ground arith

module _ (crypto : Crypto) where
  -- A child key of BIP 32: the digest of the private key behind a zero, for a hardened index, or
  -- of the public key, with the index, whose bit 31 is the mark of a hardened one. Its left half is
  -- added to the private key, and its right half is the next chain code.
  abbrev pub child : List ℕ × List ℕ → ℕ → Bool → List ℕ × List ℕ
  child (priv_key, chain_code) i true =
      let mac =
        crypto.hmac_sha512 chain_code (0 ∷ (priv_key ++ uint32_to_bytes (i % 2 ^ 31 + 2 ^ 31))) in
      (add_scalars crypto priv_key (copied (take 32 mac)), copied (drop 32 mac))
  child (priv_key, chain_code) i false =
      let mac =
        crypto.hmac_sha512 chain_code
          (crypto.compressed_public_key priv_key ++ uint32_to_bytes i) in
      (add_scalars crypto priv_key (copied (take 32 mac)), copied (drop 32 mac))

  derive_private_key_lem :
      (key : List ℕ × List ℕ) (i : ℕ) (harden : Bool)
      → IsUint32 i
      → derive_private_key crypto key i harden ≡ child key i harden
  unfolding derive_private_key i64
  derive_private_key_lem key i true h = rw (harden_index_lem i h) refl
  derive_private_key_lem key i false h = refl

  -- The three hardened levels, and the two that are not.
  abbrev pub five_levels : Bip44Params → List ℕ × List ℕ → List ℕ × List ℕ
  five_levels p key =
      let purpose = child key p.purpose true in
      let coin = child purpose p.coin_type true in
      let account = child coin p.account true in
      let change = child account (if p.change then 1 else 0) false in
      child change p.address_index false

  module _ (n : ℕ) (h : IsUint32 n) (parts : List (List ℕ)) (key : List ℕ × List ℕ) where
    hardened_level :
        derive_loop crypto (apostrophe (print n) ∷ parts) key
        ≡ derive_loop crypto parts (child key n true)
    unfolding derive_loop
    hardened_level = rw (
      ← derive_private_key_lem key n true h,
      suffix-not_empty (print n),
      trim_apostrophe_suffix (print n),
      parse_uint32-print n h,
      is_hardened_suffix (print n),
    )

    plain_level :
        derive_loop crypto (print n ∷ parts) key ≡ derive_loop crypto parts (child key n false)
    unfolding derive_loop
    plain_level =
        let (trimmed, plain) = plain_digits (print n) (print-IsDigit n) in
        rw (
          ← derive_private_key_lem key n false h,
          print-not_empty n,
          trimmed,
          parse_uint32-print n h,
          plain,
        )

  change_level :
      (change : Bool) (parts : List (List ℕ)) (key : List ℕ × List ℕ)
      → derive_loop crypto (change_field change ∷ parts) key
        ≡ derive_loop crypto parts (child key (if change then 1 else 0) false)
  change_level change parts key =
      rw (change_field-print change)
        (plain_level (if change then 1 else 0) (change_small change) parts key)

  derive_loop-nil : (key : List ℕ × List ℕ) → derive_loop crypto [] key ≡ ok key
  unfolding derive_loop
  derive_loop-nil key = refl

  -- Along the string of a BIP 44 path, the key is derived through the five levels of the path:
  -- the purpose, the coin type and the account hardened, the change and the address index not.
  -- Each level is a child key of BIP 32, over the same digest and addition of keys.
  pub derive_private_key_for_path-path_string :
      (p : Bip44Params) (priv_key chain_code : List ℕ)
      → IsBip44 p
      → derive_private_key_for_path crypto priv_key chain_code (path_string p)
        ≡ ok (five_levels p (priv_key, chain_code)).0
  unfolding derive_private_key_for_path
  derive_private_key_for_path-path_string p priv_key chain_code h =
      let purpose : IsUint32 p.purpose = rw h.purpose (omega arith) in
      let fields = split_on-path_string p in
      let part4 : List (List ℕ) = print p.address_index ∷ [] in
      let part3 : List (List ℕ) = change_field p.change ∷ part4 in
      let part2 : List (List ℕ) = apostrophe (print p.account) ∷ part3 in
      let part1 : List (List ℕ) = apostrophe (print p.coin_type) ∷ part2 in
      let key0 : List ℕ × List ℕ = (priv_key, chain_code) in
      let key1 = child key0 p.purpose true in
      let key2 = child key1 p.coin_type true in
      let key3 = child key2 p.account true in
      let key4 = child key3 (if p.change then 1 else 0) false in
      let levels : derive_loop crypto (apostrophe (print p.purpose) ∷ part1) key0
          ≡ ok (five_levels p key0) =
        hardened_level p.purpose purpose part1 key0
        ∙ (hardened_level p.coin_type h.coin_type part2 key1
            ∙ (hardened_level p.account h.account part3 key2
                ∙ (change_level p.change part4 key3
                    ∙ (plain_level p.address_index h.address_index [] key4
                        ∙ derive_loop-nil _)))) in
      rw (fields, levels) refl
