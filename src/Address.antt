-- ===== src/Address.antt =====
-- types/address.go, with utils/bech32/bech32.go and the prefixes of types/env.go: addresses and their texts.
pub mod Read
use plugchain_sdk_go.Prelude.{
  ℕ, Bool, true, false, not, ◌&&◌, ◌||◌, ◌==◌, if◌then◌else◌, List, [], ◌∷◌, length, Result, ok,
  ◌>>=◌, ◌>>◌, err_if, must, empty_text, wrong_prefix,
}
use plugchain_sdk_go.Denom.{denom_eq}

-- The library of Bech32, and the decoder of public keys.
pub record Bech32 (K : Type 0) : Type 0 where
  pub convert_bits : List ℕ → ℕ → ℕ → Bool → Result (List ℕ)
  pub encode : List ℕ → List ℕ → Result (List ℕ)
  pub decode : List ℕ → Result (List ℕ × List ℕ)
  pub pub_key_from_bytes : List ℕ → Result K
  pub key_bytes : K → List ℕ

-- The prefixes that `prefixCfg` puts together.
abbrev pub account_addr_prefix : List ℕ
account_addr_prefix = b'g' ∷ b'x' ∷ []

abbrev pub validator_addr_prefix : List ℕ
validator_addr_prefix = b'g' ∷ b'x' ∷ []

abbrev pub consensus_addr_prefix : List ℕ
consensus_addr_prefix = b'e' ∷ b'x' ∷ []

abbrev pub account_pub_prefix : List ℕ
account_pub_prefix = b'g' ∷ b'c' ∷ b'o' ∷ b'n' ∷ b's' ∷ b'p' ∷ b'u' ∷ b'b' ∷ []

abbrev pub validator_pub_prefix : List ℕ
validator_pub_prefix =
    b'g' ∷ b'x' ∷ b'v' ∷ b'a' ∷ b'l' ∷ b'c' ∷ b'o' ∷ b'n' ∷ b's' ∷ b'p' ∷ b'u' ∷ b'b' ∷ []

-- `Bech32PubKeyType`
pub data PubKeyType : Type 0 where
  acc_pub val_pub cons_pub : PubKeyType

abbrev pub pub_key_prefix : PubKeyType → List ℕ
pub_key_prefix acc_pub = account_pub_prefix
pub_key_prefix val_pub = validator_pub_prefix
pub_key_prefix cons_pub = validator_pub_prefix

module _ {K : Type 0} (bech32 : Bech32 K) where
  unfoldable pub convert_and_encode : List ℕ → List ℕ → Result (List ℕ)
  convert_and_encode hrp bz =
      bech32.convert_bits bz 8 5 true >>= λ converted. bech32.encode hrp converted

  unfoldable pub decode_and_convert : List ℕ → Result (List ℕ × List ℕ)
  decode_and_convert text = bech32.decode text >>= λ found.
      bech32.convert_bits found.1 5 8 false >>= λ converted. ok (found.0, converted)

  unfoldable pub get_from_bech32 : List ℕ → List ℕ → Result (List ℕ)
  unfolding decode_and_convert
  get_from_bech32 text prefix =
      err_if (length text == 0) empty_text
      >> (decode_and_convert text >>= λ found.
          err_if (not (denom_eq found.0 prefix)) wrong_prefix >> ok found.1)

  unfoldable pub acc_address_from_bech32 : List ℕ → Result (List ℕ)
  unfolding get_from_bech32
  acc_address_from_bech32 text = get_from_bech32 text account_addr_prefix

  unfoldable pub validate_acc_address : List ℕ → Result (Unit {0})
  unfolding get_from_bech32
  validate_acc_address text = get_from_bech32 text account_addr_prefix >>= λ bz. ok tt

  unfoldable pub must_acc_address_from_bech32 : List ℕ → Result (List ℕ)
  unfolding acc_address_from_bech32
  must_acc_address_from_bech32 text = must (acc_address_from_bech32 text)

  unfoldable pub val_address_from_bech32 : List ℕ → Result (List ℕ)
  unfolding get_from_bech32
  val_address_from_bech32 text = get_from_bech32 text validator_addr_prefix

  -- `AccAddress.String`, with the empty text for the empty address, and the other two.
  unfoldable pub acc_address_string : List ℕ → Result (List ℕ)
  unfolding convert_and_encode
  acc_address_string addr =
      if length addr == 0 then ok [] else must (convert_and_encode account_addr_prefix addr)

  unfoldable pub val_address_string : List ℕ → Result (List ℕ)
  unfolding convert_and_encode
  val_address_string addr = must (convert_and_encode validator_addr_prefix addr)

  unfoldable pub cons_address_string : List ℕ → Result (List ℕ)
  unfolding convert_and_encode
  cons_address_string addr = must (convert_and_encode consensus_addr_prefix addr)

  unfoldable pub bech32ify_pub_key : PubKeyType → K → Result (List ℕ)
  unfolding convert_and_encode
  bech32ify_pub_key kind key = convert_and_encode (pub_key_prefix kind) (bech32.key_bytes key)

  unfoldable pub get_pub_key_from_bech32 : PubKeyType → List ℕ → Result K
  unfolding get_from_bech32
  get_pub_key_from_bech32 kind text =
      get_from_bech32 text (pub_key_prefix kind) >>= bech32.pub_key_from_bytes

-- `AccAddress.Empty` and `AccAddress.Equals`, which are those of `ValAddress` too.
unfoldable pub is_empty : List ℕ → Bool
is_empty addr = length addr == 0

unfoldable pub equals : List ℕ → List ℕ → Bool
unfolding is_empty
equals a b = is_empty a && is_empty b || denom_eq a b
