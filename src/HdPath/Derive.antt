-- ===== src/HdPath/Derive.antt =====
-- `DerivePrivateKeyForPath` of crypto/hd/hdpath.go and what it calls. Keys and chain codes are arrays
-- of 32 bytes.
use plugchain_sdk_go.Prelude.{
  ℕ, zero, suc, ◌+◌, ◌-◌, ◌*◌, ◌/◌, ◌%◌, ◌^◌, Bool, ltb, ◌==◌, if◌then◌else◌, List, [], ◌∷◌, ◌++◌,
  length, take, drop, replicate, Result, ok, ◌>>=◌, ◌>>◌, panic_if, slice_out_of_range,
}
use plugchain_sdk_go.Prelude.Text.{split_on}
use plugchain_sdk_go.HdPath.{parse_uint32, trim_apostrophe, is_hardened}

-- What the libraries give: HMAC-SHA512 of a key and some data, the compressed public key of a private
-- one, and the order of the curve.
pub record Crypto : Type 0 where
  pub hmac_sha512 : List ℕ → List ℕ → List ℕ
  pub compressed_public_key : List ℕ → List ℕ
  pub order : ℕ

-- `new(big.Int).SetBytes`, big endian, behind `n`
abbrev pub value_from : ℕ → List ℕ → ℕ
value_from n [] = n
value_from n (b ∷ bs) = value_from (n * 256 + b) bs

unfoldable pub set_bytes : List ℕ → ℕ
set_bytes = value_from 0

-- `big.Int.Bytes`, which has no leading zero; `n` rounds are enough.
unfoldable pub bytes_loop : ℕ → ℕ → List ℕ → List ℕ
bytes_loop zero n out = out
bytes_loop (suc fuel) n out =
    let rest = bytes_loop fuel (n / 256) ((n % 256) ∷ out) in if n == 0 then out else rest

unfoldable pub bytes : ℕ → List ℕ
unfolding bytes_loop
bytes n = bytes_loop n n []

-- `x2 := [32]byte{}; copy(x2[32-len(x):], x)`
unfoldable pub right_aligned : List ℕ → List ℕ
right_aligned x = replicate (32 - length x) 0 ++ x

-- `copy` into an array of 32 bytes
abbrev pub copied : List ℕ → List ℕ
copied s = take 32 s ++ replicate (32 - length s) 0

-- `binary.BigEndian.PutUint32`
unfoldable pub uint32_to_bytes : ℕ → List ℕ
uint32_to_bytes i = i / 2 ^ 24 % 256 ∷ i / 2 ^ 16 % 256 ∷ i / 2 ^ 8 % 256 ∷ i % 256 ∷ []

-- `index |= 0x80000000`, on a uint32
unfoldable pub harden_index : ℕ → ℕ
harden_index index = if ltb index (2 ^ 31) then index + 2 ^ 31 else index

module _ (crypto : Crypto) where
  unfoldable pub i64 : List ℕ → List ℕ → List ℕ × List ℕ
  i64 key data_ =
      let mac = crypto.hmac_sha512 key data_ in (copied (take 32 mac), copied (drop 32 mac))

  unfoldable pub add_scalars : List ℕ → List ℕ → List ℕ
  unfolding set_bytes bytes right_aligned
  add_scalars a b = right_aligned (bytes ((set_bytes a + set_bytes b) % crypto.order))

  unfoldable pub derive_private_key : List ℕ × List ℕ → ℕ → Bool → List ℕ × List ℕ
  unfolding i64 add_scalars uint32_to_bytes harden_index
  derive_private_key (priv_key, chain_code) index harden =
      let data_ = (if harden then 0 ∷ priv_key else crypto.compressed_public_key priv_key) in
      let number = (if harden then harden_index index else index) in
      let (data2, chain_code2) = i64 chain_code (data_ ++ uint32_to_bytes number) in
      (add_scalars priv_key data2, chain_code2)

  -- "Bitcoin seed"
  abbrev pub curve_identifier : List ℕ
  curve_identifier =
      b'B' ∷ b'i' ∷ b't' ∷ b'c' ∷ b'o' ∷ b'i' ∷ b'n' ∷ b' ' ∷ b's' ∷ b'e' ∷ b'e' ∷ b'd' ∷ []

  unfoldable pub compute_masters_from_seed : List ℕ → List ℕ × List ℕ
  unfolding i64
  compute_masters_from_seed seed = i64 curve_identifier seed

  -- The loop over the parts of the path; the slice of the last byte faults at an empty part.
  unfoldable pub derive_loop : List (List ℕ) → List ℕ × List ℕ → Result (List ℕ × List ℕ)
  unfolding derive_private_key is_hardened
  derive_loop [] key = ok key
  derive_loop (part ∷ parts) key = do
    panic_if (length part == 0) slice_out_of_range
    idx ← parse_uint32 (trim_apostrophe part)
    derive_loop parts (derive_private_key key idx (is_hardened part))

  -- The array has 32 bytes, so the test on the length behind the loop never fails.
  unfoldable pub derive_private_key_for_path : List ℕ → List ℕ → List ℕ → Result (List ℕ)
  unfolding derive_loop
  derive_private_key_for_path priv_key chain_code path = do
    let (part, parts) = split_on b'/' path
    key ← derive_loop (part ∷ parts) (priv_key, chain_code)
    ok key.0
