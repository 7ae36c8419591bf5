-- ===== src/HdPath.antt =====
-- crypto/hd/hdpath.go: BIP 44 paths, and the derivation of keys along a path. The HMAC, the public key
-- of a private one and the order of the curve belong to libraries, and are parameters.
pub mod RoundTrip
pub mod Derive
pub mod Scalars
pub mod Levels
use plugchain_sdk_go.Prelude.{
  ℕ, zero, suc, ◌+◌, ◌-◌, ◌*◌, ◌/◌, ◌%◌, ◌^◌, Bool, true, false, not, ◌&&◌, ◌||◌, ltb, ◌==◌,
  if◌then◌else◌, List, [], ◌∷◌, ◌++◌, Option, none, some, Result, ok, err, panic, ◌>>=◌, ◌>>◌,
  err_if, invalid_number, path_length, not_purpose, not_hardened, hardened, invalid_change,
  slice_out_of_range,
}
use plugchain_sdk_go.Prelude.Text.{digits, print, split_on}

-- `BIP44Params`; the numbers are uint32.
pub record Bip44Params : Type 0 where
  pub purpose : ℕ
  pub coin_type : ℕ
  pub account : ℕ
  pub change : Bool
  pub address_index : ℕ

unfoldable pub new_params : ℕ → ℕ → ℕ → Bool → ℕ → Bip44Params
new_params purpose coin_type account change address_idx = record {
  purpose = purpose;
  coin_type = coin_type;
  account = account;
  change = change;
  address_index = address_idx;
}

abbrev pub in_uint32 : Option ℕ → Result ℕ
in_uint32 none = err invalid_number
in_uint32 (some n) = if ltb n (2 ^ 32) then ok n else err invalid_number

-- `strconv.ParseUint(s, 10, 32)`
abbrev pub parse_uint32 : List ℕ → Result ℕ
parse_uint32 s = in_uint32 (digits s)

-- `strings.TrimSuffix(field, "'")`
abbrev pub trim_apostrophe : List ℕ → List ℕ
trim_apostrophe [] = []
trim_apostrophe (c ∷ []) = if c == b'\'' then [] else c ∷ []
trim_apostrophe (c ∷ d ∷ cs) = c ∷ trim_apostrophe (d ∷ cs)

unfoldable pub hardened_int : List ℕ → Result ℕ
hardened_int field = parse_uint32 (trim_apostrophe field)

unfoldable pub is_hardened : List ℕ → Bool
is_hardened [] = false
is_hardened (c ∷ []) = c == b'\''
is_hardened (c ∷ d ∷ cs) = is_hardened (d ∷ cs)

-- `spl[0] == "44'"`
abbrev pub is_bip44 : List ℕ → Bool
is_bip44 (a ∷ b ∷ c ∷ []) = a == b'4' && b == b'4' && c == b'\''
is_bip44 s = false

-- `NewParamsFromPath` behind the split.
unfoldable pub params_of_fields : List ℕ → List ℕ → List ℕ → List ℕ → List ℕ → Result Bip44Params
unfolding hardened_int is_hardened
params_of_fields f0 f1 f2 f3 f4 = do
  purpose ← hardened_int f0
  coin_type ← hardened_int f1
  account ← hardened_int f2
  change ← hardened_int f3
  address_idx ← hardened_int f4
  err_if (not (is_bip44 f0)) not_purpose
  err_if (not (is_hardened f1) || not (is_hardened f2)) not_hardened
  err_if (is_hardened f3 || is_hardened f4) hardened
  err_if (not (change == 0 || change == 1)) invalid_change
  ok (record {
    purpose = purpose;
    coin_type = coin_type;
    account = account;
    change = ltb 0 change;
    address_index = address_idx;
  })

abbrev pub five_fields : List ℕ × List (List ℕ) → Result Bip44Params
five_fields (f0, f1 ∷ f2 ∷ f3 ∷ f4 ∷ []) = params_of_fields f0 f1 f2 f3 f4
five_fields fields = err path_length

unfoldable pub new_params_from_path : List ℕ → Result Bip44Params
unfolding params_of_fields
new_params_from_path path = five_fields (split_on b'/' path)

unfoldable pub new_fundraiser_params : ℕ → ℕ → ℕ → Bip44Params
unfolding new_params
new_fundraiser_params account coin_type address_idx =
    new_params 44 coin_type account false address_idx

unfoldable pub create_hd_path : ℕ → ℕ → ℕ → Bip44Params
unfolding new_fundraiser_params
create_hd_path coin_type account index = new_fundraiser_params account coin_type index

unfoldable pub derivation_path : Bip44Params → List ℕ
derivation_path p =
    p.purpose ∷ p.coin_type ∷ p.account ∷ (if p.change then 1 else 0) ∷ p.address_index ∷ []

-- `BIP44Params.String`: the three hardened numbers, each with its apostrophe, and the other two.
unfoldable pub path_string : Bip44Params → List ℕ
unfolding print
path_string p =
    (print p.purpose ++ b'\'' ∷ [])
    ++ b'/'
      ∷ ((print p.coin_type ++ b'\'' ∷ [])
          ++ b'/'
            ∷ ((print p.account ++ b'\'' ∷ [])
                ++ b'/'
                  ∷ (((if p.change then b'1' else b'0') ∷ []) ++ b'/' ∷ print p.address_index)))
