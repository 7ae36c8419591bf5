-- ===== src/DecCoin/Loops.antt =====
-- The sets that `MulDec`, `QuoDec` and their truncating forms build, and the whole parts that
-- `TruncateDecimal` splits off.
use plugchain_sdk_go.Prelude.{
  ℕ, ◌*◌, ◌/◌, ◌%◌, ◌^◌, ◌<◌, ◌≡◌, refl, sym, true, false, arith, [], ◌∷◌, All, Result, ok,
  panic_if, >>=-eq-ok, ok-injective, Bool-cases, inl, inr, ◌⊎◌, if◌then◌else◌, ◌==◌, zero_decimal,
}
use plugchain_sdk_go.Prelude.Integer
use plugchain_sdk_go.Prelude.Integer.{ℤ, pos, mag, ◌+ℤ◌, ◌-ℤ◌, ◌≤ℤ◌, ◌<ℤ◌, ◌*ℤ◌, int_laws}
use plugchain_sdk_go.Dec
use plugchain_sdk_go.Dec.{Decimal}
use plugchain_sdk_go.CoinSet.{is_zero}
use plugchain_sdk_go.CoinSet.Sorted.{IsSorted}
use plugchain_sdk_go.CoinSet.Merge.{IsSorted-safe_add}
use plugchain_sdk_go.CoinSet.Kept.{HasAmounts-safe_add}
use plugchain_sdk_go.Denom.{Denom, matches_denom, validate_denom, must_validate_denom}
use plugchain_sdk_go.Int
use plugchain_sdk_go.Int.Bounds.{new_int_from_big_int_pos}
use plugchain_sdk_go.Dec.Product.{checked_in}
use plugchain_sdk_go.Coin
use plugchain_sdk_go.DecCoin.{
  new_dec_coin_from_dec, truncate_decimal_coin, DecCoin, DecCoins, add, scale_loop, mul_dec,
  mul_dec_truncate, quo_dec, quo_dec_truncate,
}
use plugchain_sdk_go.DecCoin.Sums.{dec_addition}

-- A set in strict order of denominations, with no coin without an amount.
abbrev pub IsTidy : DecCoins → Type 0
IsTidy cs = IsSorted cs × All (λ c. is_zero c ≡ false) cs

add_one-IsTidy :
    (res next : DecCoins) (c : DecCoin)
    → IsTidy res
    → (if is_zero c then ok res else add res (c ∷ [])) ≡ ok next
    → IsTidy next
add_one-IsTidy res next c t h = elim (Bool-cases (is_zero c)) [
  | inl z ↦ rw (sym (ok-injective (rw z at h))) t
  | inr z ↦
      let made = rw z at h in
      (
        IsSorted-safe_add Dec.add dec_addition res (c ∷ []) next t.0 (tt, tt) made,
        HasAmounts-safe_add Dec.add dec_addition res (c ∷ []) next made,
      )
]

scale_loop-IsTidy :
    (f : Decimal → Result Decimal) (cs res r : DecCoins)
    → IsTidy res
    → scale_loop f cs res ≡ ok r
    → IsTidy r
unfolding scale_loop
scale_loop-IsTidy f [] res r t h = rw (sym (ok-injective h)) t
scale_loop-IsTidy f (c ∷ cs) res r t h =
    let (amount, _, h1) = >>=-eq-ok (f c.amount) _ h in
    let product : DecCoin = record { denom = c.denom; amount = amount } in
    let (next, made, h2) =
      >>=-eq-ok (if is_zero product then ok res else add res (product ∷ [])) _ h1 in
    scale_loop-IsTidy f cs next r (add_one-IsTidy res next product t made) h2

-- Whatever the set and the factor, and whatever the order of the coins, a set that one of the four
-- operations returns is in strict order and has no coin without an amount.
pub scaled-IsTidy :
    (cs r : DecCoins) (d : Decimal)
    → (mul_dec cs d ≡ ok r)
      ⊎ (mul_dec_truncate cs d ≡ ok r)
      ⊎ (quo_dec cs d ≡ ok r)
      ⊎ (quo_dec_truncate cs d ≡ ok r)
    → IsTidy r
unfolding mul_dec mul_dec_truncate quo_dec quo_dec_truncate
scaled-IsTidy cs r d h = elim h [
  | inl h1 ↦ scale_loop-IsTidy _ cs [] r (tt, tt) h1
  | inr (inl h2) ↦ scale_loop-IsTidy _ cs [] r (tt, tt) h2
  | inr (inr (inl h3)) ↦
      scale_loop-IsTidy _ cs [] r (tt, tt) ((>>=-eq-ok (panic_if (mag d == 0) zero_decimal) _ h3).2)
  | inr (inr (inr h4)) ↦
      scale_loop-IsTidy _ cs [] r (tt, tt) ((>>=-eq-ok (panic_if (mag d == 0) zero_decimal) _ h4).2)
]

module _ (denom : Denom) (m : matches_denom denom ≡ true) where
  pub new_coin_pos :
      (n : ℕ) → Coin.new_coin denom (pos n) ≡ ok (record { denom = denom; amount = pos n })
  unfolding Coin.new_coin Coin.validate validate_denom Int.is_negative
  new_coin_pos n = rw m (ground arith)

  pub new_dec_coin_pos :
      (n : ℕ) → new_dec_coin_from_dec denom (pos n) ≡ ok (record { denom = denom; amount = pos n })
  unfolding new_dec_coin_from_dec must_validate_denom validate_denom
  new_dec_coin_pos n = rw m refl

truncate_int_pos :
    (n : ℕ)
    → n / Dec.precision_reuse < 2 ^ 255
    → Dec.truncate_int (pos n) ≡ ok (pos (n / Dec.precision_reuse))
unfolding Dec.truncate_int Dec.chop_precision_and_truncate Integer.quo
truncate_int_pos n h = new_int_from_big_int_pos (n / Dec.precision_reuse) h

change_lem :
    (n : ℕ)
    → n < 2 ^ 315
    → Dec.sub (pos n) (Dec.new_dec_from_int (pos (n / Dec.precision_reuse)))
      ≡ ok (pos (n % Dec.precision_reuse))
unfolding Dec.sub Dec.new_dec_from_int ◌*ℤ◌
change_lem n h =
    let e : pos n -ℤ pos (n / Dec.precision_reuse * Dec.precision_reuse)
        ≡ pos (n % Dec.precision_reuse) =
      omega int_laws in
    rw e (checked_in (pos (n % Dec.precision_reuse)) (omega arith))

-- TruncateDecimal splits a coin of a denomination that matches the pattern, whose amount is
-- not negative and has a whole part of at most 255 bits, into that whole part and the change,
-- which is less than one.
pub truncate_decimal_coin_lem :
    (denom : Denom) (n : ℕ)
    → matches_denom denom ≡ true
    → n < 2 ^ 255 * Dec.precision_reuse
    → truncate_decimal_coin (record { denom = denom; amount = pos n })
      ≡ ok (
        record { denom = denom; amount = pos (n / Dec.precision_reuse) },
        record { denom = denom; amount = pos (n % Dec.precision_reuse) },
      )
unfolding truncate_decimal_coin
truncate_decimal_coin_lem denom n m h =
    rw
      (
        truncate_int_pos n (omega arith),
        change_lem n (omega arith),
        new_coin_pos denom m (n / Dec.precision_reuse),
        new_dec_coin_pos denom m (n % Dec.precision_reuse),
      )
      refl
