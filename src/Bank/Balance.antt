-- ===== src/Bank/Balance.antt =====
-- `MsgMultiSend.ValidateBasic` of modules/bank/types.go: a message that passes creates no coins.
use plugchain_sdk_go.Prelude.{
  ℕ, ◌≡◌, refl, sym, ◌∙◌, Bool, true, false, not, arith, ◌==◌, if◌then◌else◌, Bool-cases, inl, inr,
  List, [], ◌∷◌, length, Result, ok, >>=-eq-ok, err_if, err_if-passed, panic_if, panic_if-passed,
  ok-injective, unbalanced, denom_mismatch, empty_inputs, empty_outputs,
}
use plugchain_sdk_go.Prelude.Integer.{ℤ, pos, ◌+ℤ◌, eqb_ℤ, eqb_ℤ_iff, int_laws}
use plugchain_sdk_go.Denom.{Denom, denom_eq}
use plugchain_sdk_go.Denom.Order.{eq_of_denom_eq}
use plugchain_sdk_go.Int
use plugchain_sdk_go.CoinSet.{Coin, sort, equal_coins, is_equal}
use plugchain_sdk_go.CoinSet.Total.{total, total-safe_add}
use plugchain_sdk_go.CoinSet.Sort.{total-sort, length-sort}
use plugchain_sdk_go.Coin
use plugchain_sdk_go.Coin.{Coins}
use plugchain_sdk_go.Coin.Sums.{int_addition}
use plugchain_sdk_go.Bank.{
  Input, Output, MsgMultiSend, validate_input, validate_output, total_in, total_out,
  validate_inputs_outputs, validate_multi_send,
}

-- What all of the inputs, or the outputs, hold of a denomination.
abbrev pub inputs_total : Denom → List Input → ℤ
inputs_total d [] = pos 0
inputs_total d (input ∷ inputs) = total d input.coins +ℤ inputs_total d inputs

abbrev pub outputs_total : Denom → List Output → ℤ
outputs_total d [] = pos 0
outputs_total d (output ∷ outputs) = total d output.coins +ℤ outputs_total d outputs

add_zero : (a : ℤ) → a +ℤ pos 0 ≡ a
add_zero a = omega int_laws

regroup : (a b c : ℤ) → a +ℤ b +ℤ c ≡ a +ℤ (b +ℤ c)
regroup a b c = omega int_laws

-- What the loop of `IsEqual` has tested when it finds the slices equal.
equal_rest :
    (b : Bool) (rest : Result Bool)
    → (if not b then ok false else rest) ≡ ok true
    → (b ≡ true) × (rest ≡ ok true)
equal_rest true rest h = (refl, h)
equal_rest false rest h = cc

balanced : (same : Bool) → err_if (not same) unbalanced ≡ ok tt → same ≡ true
balanced true h = refl
balanced false h = cc

-- Slices that `IsEqual` finds equal, element by element, hold the same of every denomination.
equal_coins-total :
    (d : Denom) (xs ys : List Coin)
    → (length xs == length ys) ≡ true
    → equal_coins xs ys ≡ ok true
    → total d xs ≡ total d ys
equal_coins-total d [] [] l h = refl
equal_coins-total d [] (y ∷ ys) l h = absurd (ground arith)
equal_coins-total d (x ∷ xs) [] l h = absurd (ground arith)
equal_coins-total d (x ∷ xs) (y ∷ ys) l h =
    let (_, passed, rest) =
      >>=-eq-ok (panic_if (not (denom_eq x.denom y.denom)) denom_mismatch) _ h in
    let same =
      eq_of_denom_eq x.denom y.denom
        (panic_if-passed (denom_eq x.denom y.denom) denom_mismatch passed) in
    let (amounts, tails) = equal_rest (eqb_ℤ x.amount y.amount) (equal_coins xs ys) rest in
    let amount : x.amount ≡ y.amount = eqb_ℤ_iff x.amount y.amount amounts in
    let coin : x ≡ y = cc in
    let shorter : (length xs == length ys) ≡ true = ground arith in
    rw (coin, equal_coins-total d xs ys shorter tails)

is_equal-total :
    (d : Denom) (xs ys : List Coin) → is_equal xs ys ≡ ok true → total d xs ≡ total d ys
unfolding is_equal
is_equal-total d xs ys h = elim (Bool-cases (length xs == length ys)) [
  | inl t ↦
      let sorted : (length (sort xs) == length (sort ys)) ≡ true =
        rw (length-sort xs, length-sort ys) t in
      sym (total-sort d xs)
      ∙ equal_coins-total d (sort xs) (sort ys) sorted (rw t at h)
      ∙ total-sort d ys
  | inr t ↦ absurd (cc (rw t at h))
]

module _ (parse_address : List ℕ → Result (List ℕ)) (d : Denom) where
  total-total_in :
      (inputs : List Input) (sum r : Coins)
      → total_in parse_address inputs sum ≡ ok r
      → total d r ≡ total d sum +ℤ inputs_total d inputs
  unfolding total_in
  total-total_in [] sum r h = rw (sym (ok-injective h)) (sym (add_zero (total d sum)))
  total-total_in (input ∷ inputs) sum r h =
      let (_, _, h1) = >>=-eq-ok (validate_input parse_address input) _ h in
      let (next, added, h2) = >>=-eq-ok (Coin.add sum input.coins) _ h1 in
      total-total_in inputs next r h2
      ∙ rw (total-safe_add Int.add int_addition d sum input.coins next added) (regroup _ _ _)

  total-total_out :
      (outputs : List Output) (sum r : Coins)
      → total_out parse_address outputs sum ≡ ok r
      → total d r ≡ total d sum +ℤ outputs_total d outputs
  unfolding total_out
  total-total_out [] sum r h = rw (sym (ok-injective h)) (sym (add_zero (total d sum)))
  total-total_out (output ∷ outputs) sum r h =
      let (_, _, h1) = >>=-eq-ok (validate_output parse_address output) _ h in
      let (next, added, h2) = >>=-eq-ok (Coin.add sum output.coins) _ h1 in
      total-total_out outputs next r h2
      ∙ rw (total-safe_add Int.add int_addition d sum output.coins next added) (regroup _ _ _)

  zero_add : (a : ℤ) → pos 0 +ℤ a ≡ a
  zero_add a = omega int_laws

  validate_inputs_outputs-total :
      (inputs : List Input) (outputs : List Output)
      → validate_inputs_outputs parse_address inputs outputs ≡ ok tt
      → inputs_total d inputs ≡ outputs_total d outputs
  unfolding validate_inputs_outputs
  validate_inputs_outputs-total inputs outputs h =
      let (sum_in, e1, h1) = >>=-eq-ok (total_in parse_address inputs []) _ h in
      let (sum_out, e2, h2) = >>=-eq-ok (total_out parse_address outputs []) _ h1 in
      let (same, e3, h3) = >>=-eq-ok (is_equal sum_in sum_out) _ h2 in
      let equal : same ≡ true = balanced same h3 in
      let left = total-total_in inputs [] sum_in e1 ∙ zero_add (inputs_total d inputs) in
      let right = total-total_out outputs [] sum_out e2 ∙ zero_add (outputs_total d outputs) in
      sym left ∙ is_equal-total d sum_in sum_out (rw equal at e3) ∙ right

  -- A multi-send message that passes its validation takes from its inputs, of every
  -- denomination, exactly what it gives to its outputs.
  pub validate_multi_send-total :
      (msg : MsgMultiSend)
      → validate_multi_send parse_address msg ≡ ok tt
      → inputs_total d msg.inputs ≡ outputs_total d msg.outputs
  unfolding validate_multi_send
  validate_multi_send-total msg h =
      let (_, h1) = err_if-passed (length msg.inputs == 0) empty_inputs _ h in
      let (_, h2) = err_if-passed (length msg.outputs == 0) empty_outputs _ h1 in
      validate_inputs_outputs-total msg.inputs msg.outputs h2
