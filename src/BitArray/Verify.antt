-- ===== src/BitArray/Verify.antt =====
-- `VerifyMultisignature` and `NewLegacyAminoPubKey` of crypto/keys/multisig/multisig.go. A key of a
-- library's scheme and its check of a signature are parameters, and so are the bytes to sign.
use plugchain_sdk_go.Prelude.{
  ℕ, suc, ◌+◌, ◌%◌, ◌^◌, Bool, ◌||◌, not, ltb, if◌then◌else◌, List, Result, ok, err, panic, ◌>>=◌,
  ◌>>◌, err_if, panic_if, invalid_size, unknown_key, index_out_of_range, invalid_threshold,
  not_implemented,
}
use plugchain_sdk_go.Prelude.Integer.{ℤ, pos, mag, eqb_ℤ, leb_ℤ, ltb_ℤ}
use plugchain_sdk_go.BitArray.{CompactBitArray, count, get_index, num_true_bits_before}

-- The implementations of `SignatureData`.
mutual
  pub data SignatureData : Type 0 where
    single : (sign_mode : ℕ) → (signature : List ℕ) → SignatureData
    multi : CompactBitArray → Signatures → SignatureData

  pub data Signatures : Type 0 where
    empty : Signatures
    append : SignatureData → Signatures → Signatures

abbrev pub count_of : Signatures → ℕ
count_of empty = 0
count_of (append s ss) = suc (count_of ss)

module _ (LibraryKey : Type 0) where
  mutual
    pub data PubKey : Type 0 where
      library : LibraryKey → PubKey
      legacy_amino : (threshold : ℕ) → PubKeys → PubKey

    pub data PubKeys : Type 0 where
      no_keys : PubKeys
      and_key : PubKey → PubKeys → PubKeys

  abbrev pub keys_count : PubKeys → ℕ
  keys_count no_keys = 0
  keys_count (and_key k ks) = suc (keys_count ks)

  -- `uint32(k)` keeps the low 32 bits; packing the keys is the library's.
  unfoldable pub new_legacy_amino_pub_key : ℤ → PubKeys → Result PubKey
  new_legacy_amino_pub_key k pub_keys = do
    panic_if (leb_ℤ k (pos 0)) invalid_threshold
    panic_if (ltb_ℤ (pos (keys_count pub_keys)) k) invalid_threshold
    ok (legacy_amino (mag k % 2 ^ 32) pub_keys)

  module _ (get_sign_bytes : ℕ → Result (List ℕ))
      (verify_signature : LibraryKey → List ℕ → List ℕ → Bool) where
    -- The tests in front of the loop.
    unfoldable pub verify_sizes : ℕ → PubKeys → CompactBitArray → Signatures → Result (Unit {0})
    verify_sizes threshold pub_keys b sigs = do
      err_if (not (eqb_ℤ (pos (keys_count pub_keys)) (count b))) invalid_size
      err_if (ltb (count_of sigs) threshold || ltb (keys_count pub_keys) (count_of sigs))
          invalid_size
      set_bits ← num_true_bits_before b (keys_count pub_keys)
      err_if (ltb set_bits threshold) invalid_size

    mutual
      -- One key and one signature.
      verify_one : PubKey → SignatureData → Result (Unit {0})
      verify_one (library k) (single mode signature) = do
        msg ← get_sign_bytes mode
        err_if (not (verify_signature k msg signature)) unknown_key
      verify_one (legacy_amino threshold ks) (single mode signature) = do
        msg ← get_sign_bytes mode
        panic not_implemented
      verify_one (library k) (multi b sigs) = err unknown_key
      verify_one (legacy_amino threshold ks) (multi b sigs) =
          verify_sizes threshold ks b sigs >> verify_loop b 0 ks sigs

      -- The loop from index `i` on, with the keys and the signatures that are left.
      verify_loop : CompactBitArray → ℕ → PubKeys → Signatures → Result (Unit {0})
      verify_loop b i no_keys sigs = ok tt
      verify_loop b i (and_key k ks) empty = get_index b i >>= λ bit.
          if bit then panic index_out_of_range else verify_loop b (i + 1) ks empty
      verify_loop b i (and_key k ks) (append s sigs) = get_index b i >>= λ bit.
          if bit
          then verify_one k s >> verify_loop b (i + 1) ks sigs
          else verify_loop b (i + 1) ks (append s sigs)
