-- ===== src/Staking/Validators.antt =====
-- modules/staking/types.go: the checks and the signers of the messages that create and edit a validator.
use plugchain_sdk_go.Prelude.{
  ℕ, ◌≡◌, refl, sym, ap, ◌∙◌, arith, Bool, true, false, not, ◌&&◌, Bool-cases, inl, inr, ◌==◌,
  if◌then◌else◌, List, [], ◌∷◌, length, Option, none, some, Result, ok, panic, ◌>>=◌, ◌>>◌,
  >>=-eq-ok, err_if, err_if-passed, err_if-not-passed, must, missing_address, wrong_validator,
  missing_pub_key, missing_description, missing_commission, not_positive, nil_pointer,
}
use plugchain_sdk_go.Prelude.Integer.{ℤ}
use plugchain_sdk_go.Denom.{denom_eq}
use plugchain_sdk_go.Denom.Order.{eq_of_denom_eq, denom_eq_self}
use plugchain_sdk_go.Int
use plugchain_sdk_go.Address.{is_empty, equals}
use plugchain_sdk_go.Staking.{Description, CommissionRates, MsgCreateValidator, MsgEditValidator}

-- `msg.Description == (Description{})`
abbrev pub no_description : Description → Bool
no_description d =
    length d.moniker == 0
    && length d.identity == 0
    && length d.website == 0
    && length d.security_contact == 0
    && length d.details == 0

-- `msg.Commission == (CommissionRates{})`, which compares the pointers in the decimals.
abbrev pub is_none : {A : Type 0} → Option A → Bool
is_none none = true
is_none (some a) = false

abbrev pub no_commission : CommissionRates → Bool
no_commission c = is_none c.rate && is_none c.max_rate && is_none c.max_change_rate

-- `MinSelfDelegation.IsPositive`
abbrev pub check_positive : Option ℤ → Result (Unit {0})
check_positive none = panic nil_pointer
check_positive (some i) = err_if (not (Int.is_positive i)) not_positive

-- `if msg.MinSelfDelegation != nil && !msg.MinSelfDelegation.IsPositive()`
abbrev pub check_positive_if_there : Option ℤ → Result (Unit {0})
check_positive_if_there none = ok tt
check_positive_if_there (some i) = err_if (not (Int.is_positive i)) not_positive

unfoldable pub validate_edit_validator : MsgEditValidator → Result (Unit {0})
unfolding Int.is_positive
validate_edit_validator msg =
    err_if (length msg.validator_address == 0) missing_address
    >> (err_if (no_description msg.description) missing_description
        >> check_positive_if_there msg.min_self_delegation)

-- The parsers of account and validator addresses are parameters.
module _ (parse_account parse_validator : List ℕ → Result (List ℕ)) where
  -- The rest of `ValidateBasic`, behind the addresses.
  unfoldable pub check_terms : MsgCreateValidator → Result (Unit {0})
  unfolding Int.is_positive
  check_terms msg =
      err_if (is_none msg.pubkey) missing_pub_key
      >> (err_if (no_description msg.description) missing_description
          >> (err_if (no_commission msg.commission) missing_commission
              >> check_positive msg.min_self_delegation))

  unfoldable pub validate_create_validator : MsgCreateValidator → Result (Unit {0})
  unfolding is_empty equals check_terms
  validate_create_validator msg = parse_account msg.delegator_address >>= λ del_addr.
      err_if (is_empty del_addr) missing_address
      >> (err_if (length msg.validator_address == 0) missing_address
          >> (parse_validator msg.validator_address >>= λ val_addr.
              err_if (not (equals val_addr del_addr)) wrong_validator >> check_terms msg))

  -- `GetSigners`: the delegator, and the validator if it is another.
  unfoldable pub create_validator_signers : MsgCreateValidator → Result (List (List ℕ))
  create_validator_signers msg = must (parse_account msg.delegator_address) >>= λ del_addr.
      must (parse_validator msg.validator_address) >>= λ addr.
      if denom_eq del_addr addr then ok (del_addr ∷ []) else ok (del_addr ∷ addr ∷ [])

  unfoldable pub edit_validator_signers : MsgEditValidator → Result (List (List ℕ))
  edit_validator_signers msg =
      must (parse_validator msg.validator_address) >>= λ val_addr. ok (val_addr ∷ [])

  denom_eq_of_equals : (a b : List ℕ) → equals a b ≡ true → is_empty b ≡ false → denom_eq b a ≡ true
  unfolding equals is_empty
  denom_eq_of_equals a b h filled = elim (Bool-cases (denom_eq a b)) [
    | inl t ↦ rw (eq_of_denom_eq a b t) (denom_eq_self b)
    | inr f ↦ absurd (ground (arith, h, filled, f))
  ]

  -- A message that creates a validator and passes its check needs one signature, that of its
  -- delegator, which is an address that is not empty: GetSigners does not panic on it, and the
  -- validator has the same address.
  pub create_validator_signers-validate_create_validator :
      (msg : MsgCreateValidator)
      → validate_create_validator msg ≡ ok tt
      → (addr : List ℕ) × (is_empty addr ≡ false)
        × (parse_account msg.delegator_address ≡ ok addr)
        × (parse_validator msg.validator_address ≡ ok addr)
        × (create_validator_signers msg ≡ ok (addr ∷ []))
  unfolding validate_create_validator create_validator_signers
  create_validator_signers-validate_create_validator msg h =
      let (del_addr, e1, h1) = >>=-eq-ok (parse_account msg.delegator_address) _ h in
      let (filled, h2) = err_if-passed (is_empty del_addr) missing_address _ h1 in
      let (there, h3) = err_if-passed (length msg.validator_address == 0) missing_address _ h2 in
      let (val_addr, e2, h4) = >>=-eq-ok (parse_validator msg.validator_address) _ h3 in
      let (same, h5) = err_if-not-passed (equals val_addr del_addr) wrong_validator _ h4 in
      let t = denom_eq_of_equals val_addr del_addr same filled in
      let one : val_addr ≡ del_addr = sym (eq_of_denom_eq del_addr val_addr t) in
      (del_addr, filled, e1, e2 ∙ ap ok one, rw (e1, e2, t) refl)
