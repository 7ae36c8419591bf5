-- ===== src/Prelude/Results.antt =====
-- How a Go call ends: with a value, with a returned error, or with a panic.
use Prim.Native.Nat.{ℕ}
use mathlib.Core.Path.{◌≡◌, refl}
use mathlib.Core.List.{List}
use mathlib.Core.Bool.{Bool, true, false, not}

-- The `error` values that the modelled functions build.
pub data Error : Type 0 where
  empty_decimal_str invalid_decimal_length invalid_decimal_str : Error
  invalid_precision set_string_failed : Error
  invalid_denom negative_amount not_positive : Error
  duplicate_denom not_sorted : Error
  invalid_coin_expression invalid_coin_amount invalid_coin_set : Error
  base_denom wrong_liquidity_denom : Error
  invalid_size nil_multisig unknown_key : Error
  out_of_bounds : Error
  invalid_number path_length not_purpose not_hardened hardened invalid_change : Error
  empty_coins empty_inputs empty_outputs unbalanced identical_coins small_offer : Error
  missing_address no_messages unsupported_mode missing_chain_id fees_and_gas_prices no_connection :
      Error
  no_descriptor invalid_length no_type_name unregistered_type : Error
  mismatched_wire_type unknown_field : ℕ → ℕ → Error
  invalid_uri keyword empty_text wrong_prefix missing_id invalid_nft_id invalid_class : Error
  missing_pub_key missing_description missing_commission wrong_validator : Error
  no_fee gas_too_large negative_fee no_signatures wrong_signers no_proto_message : Error
  unrecognized_fields unexpected_mode : Error
  sdk_error : List ℕ → ℕ → List ℕ → Error

-- The values that the modelled functions panic with; an `error` that is passed on is `raised`.
pub data Panic : Type 0 where
  int_overflow int_out_of_bound int64_out_of_bound : Panic
  division_by_zero negative_decimal too_much_precision : Panic
  denom_mismatch negative_coin_amount duplicate_coin invalid_coins : Panic
  zero_decimal index_out_of_range nil_pointer : Panic
  invalid_threshold not_implemented slice_out_of_range type_assertion : Panic
  unexpected_mode_info : Panic
  raised : Error → Panic

pub data Result {ℓ} (T : Type ℓ) : Type ℓ where
  panic : Panic → Result T
  err : Error → Result T
  ok : T → Result T

-- What follows a call runs if the call returned a value.
infixl 5 ◌>>◌ ◌>>=◌
abbrev pub ◌>>=◌ {ℓ κ} :
    {T : Type ℓ} {S : Type κ} (call : Result T) (next : T → Result S) → Result S
panic p >>= next = panic p
err e >>= next = err e
ok t >>= next = next t

abbrev pub ◌>>◌ {κ} : {S : Type κ} (test : Result (Unit {0})) (next : Result S) → Result S
test >> next = test >>= λ done. next

-- `if b { panic(p) }`
abbrev pub panic_if : Bool → Panic → Result (Unit {0})
panic_if true p = panic p
panic_if false p = ok tt

-- `if b { return e }`
abbrev pub err_if : Bool → Error → Result (Unit {0})
err_if true e = err e
err_if false e = ok tt

-- `if err != nil { panic(err) }`
abbrev pub must {ℓ} : {A : Type ℓ} → Result A → Result A
must (ok a) = ok a
must (err e) = panic (raised e)
must (panic p) = panic p

-- A call under `must` that returned a value has returned it.
pub must-eq-ok {ℓ} : {A : Type ℓ} (m : Result A) (a : A) → must m ≡ ok a → m ≡ ok a
must-eq-ok (ok b) a e = e
must-eq-ok (err x) a e = cc
must-eq-ok (panic p) a e = cc

pub ok-injective {ℓ} : {T : Type ℓ} {s t : T} (e : ok s ≡ ok t) → s ≡ t
ok-injective e = cc

-- What a guard that let the call go on has tested.
pub panic_if-passed : (b : Bool) (p : Panic) {u : Unit {0}} → panic_if (not b) p ≡ ok u → b ≡ true
panic_if-passed true p h = refl
panic_if-passed false p h = cc

-- A guard that returns no error, and the rest of the call behind it.
pub err_if-passed {ℓ} :
    {B : Type ℓ} (b : Bool) (e : Error) (k : Result B) {r : B}
    → (err_if b e >> k) ≡ ok r
    → (b ≡ false) × (k ≡ ok r)
err_if-passed true e k h = cc
err_if-passed false e k h = (refl, h)

pub err_if-not-passed {ℓ} :
    {B : Type ℓ} (b : Bool) (e : Error) (k : Result B) {r : B}
    → (err_if (not b) e >> k) ≡ ok r
    → (b ≡ true) × (k ≡ ok r)
err_if-not-passed true e k h = (refl, h)
err_if-not-passed false e k h = cc

-- A call that went on to return `s` has returned some `t` before.
pub >>=-eq-ok {ℓ κ} :
    {T : Type ℓ} {S : Type κ} (call : Result T) (next : T → Result S) {s : S}
    → (call >>= next) ≡ ok s
    → (t : T) × (call ≡ ok t) × (next t ≡ ok s)
>>=-eq-ok (panic p) next e = cc
>>=-eq-ok (err d) next e = cc
>>=-eq-ok (ok t) next e = (t, refl, e)
