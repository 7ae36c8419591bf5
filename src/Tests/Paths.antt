-- ===== src/Tests/Paths.antt =====
-- Runs of crypto/hd/hdpath.go and of `Dec.String`.
use plugchain_sdk_go.Prelude.{
  ◌≡◌, refl, arith, true, [], ◌∷◌, replicate, ok, panic, slice_out_of_range,
}
use plugchain_sdk_go.Prelude.Integer.{negsuc}
use plugchain_sdk_go.Prelude.Text.{print}
use plugchain_sdk_go.Dec.{dec_string}
use plugchain_sdk_go.Dec.Parse.{new_dec_from_str}
use plugchain_sdk_go.Dec.Text.{new_dec_from_str-dec_string}
use plugchain_sdk_go.HdPath.{
  Bip44Params, new_params, new_fundraiser_params, create_hd_path, new_params_from_path, path_string,
}
use plugchain_sdk_go.HdPath.RoundTrip.{IsBip44, new_params_from_path-path_string}
use plugchain_sdk_go.HdPath.Derive.{Crypto, derive_private_key_for_path, derive_loop}
use plugchain_sdk_go.HdPath.Levels.{five_levels, derive_private_key_for_path-path_string}

-- 44'/118'/3'/1/5
abbrev third_account : Bip44Params
third_account = record {
  purpose = 44;
  coin_type = 118;
  account = 3;
  change = true;
  address_index = 5;
}

third_account-IsBip44 : IsBip44 third_account
third_account-IsBip44 = record {
  purpose = refl;
  coin_type = omega arith;
  account = omega arith;
  address_index = omega arith;
}

first_path :
    path_string (create_hd_path 118 0 0)
    ≡ b'4' ∷ b'4' ∷ b'\'' ∷ b'/' ∷ b'1' ∷ b'1' ∷ b'8' ∷ b'\'' ∷ b'/' ∷ b'0' ∷ b'\'' ∷ b'/' ∷ b'0'
      ∷ b'/' ∷ b'0' ∷ []
unfolding path_string create_hd_path new_fundraiser_params new_params print
first_path = refl

new_params_from_path-path_string_example :
    new_params_from_path (path_string third_account) ≡ ok third_account
new_params_from_path-path_string_example =
    new_params_from_path-path_string third_account third_account-IsBip44

-- A MAC of 64 equal bytes, and a small order.
abbrev small_crypto : Crypto
small_crypto = record {
  hmac_sha512 = λ key data_. replicate 64 3;
  compressed_public_key = λ key. 2 ∷ key;
  order = 1009;
}

derive_private_key_for_path-path_string_example :
    derive_private_key_for_path small_crypto (1 ∷ []) (2 ∷ []) (path_string third_account)
    ≡ ok (five_levels small_crypto third_account (1 ∷ [], 2 ∷ [])).0
derive_private_key_for_path-path_string_example =
    derive_private_key_for_path-path_string small_crypto third_account (1 ∷ []) (2 ∷ [])
      third_account-IsBip44

-- An empty part of a path makes the derivation panic.
derive_empty : derive_private_key_for_path small_crypto [] [] [] ≡ panic slice_out_of_range
unfolding derive_private_key_for_path derive_loop
derive_empty = refl

new_dec_from_str-dec_string_example : new_dec_from_str (dec_string (negsuc 1500)) ≡ ok (negsuc 1500)
new_dec_from_str-dec_string_example = new_dec_from_str-dec_string (negsuc 1500)
