-- ===== src/DecCoin/Sums.antt =====
-- Sums and differences of sets of decimal coins.
use mathlib.Core.Path.{subst}
use plugchain_sdk_go.Prelude.{
  ◌⊎◌, ◌^◌, ◌<◌, ◌≡◌, ◌↔◌, refl, sym, ap, ◌∙◌, Bool, true, false, arith, ltb, [], ◌∷◌, All, ok,
  panic, panic_if, >>=-eq-ok, ok-injective, int_overflow, Bool-cases, or-false, inl, inr,
  negative_coin_amount, if◌then◌else◌,
}
use plugchain_sdk_go.Prelude.Integer
use plugchain_sdk_go.Prelude.Integer.{
  ℤ, pos, mag, ◌+ℤ◌, ◌-ℤ◌, ◌≤ℤ◌, ◌<ℤ◌, int_laws, is_neg, mag-neg, pos_part, neg_part,
}
use plugchain_sdk_go.Denom.{Denom, denom_eq}
use plugchain_sdk_go.Denom.Order.{eq_of_denom_eq, denom_eq_self}
use plugchain_sdk_go.Dec
use plugchain_sdk_go.Dec.Product.{checked_in}
use plugchain_sdk_go.CoinSet.{Coin, is_negative}
use plugchain_sdk_go.CoinSet.Total.{AdditionLaws, held, total, total-safe_add}
use plugchain_sdk_go.CoinSet.Sorted.{IsSorted, Below, total-Lacks, Lacks-of_Below}
use plugchain_sdk_go.CoinSet.Merge.{IsSorted-safe_add}
use plugchain_sdk_go.CoinSet.Kept.{safe_add_returns}
use plugchain_sdk_go.Coin.Sums.{mag-+}
use plugchain_sdk_go.DecCoin.{DecCoins, add, negative, is_any_negative, safe_sub, sub}

pub checked_exact : (x r : ℤ) → Dec.checked x ≡ ok r → r ≡ x
unfolding Dec.checked
checked_exact x r h =
    let (_, _, e) = >>=-eq-ok (panic_if (ltb 315 _) int_overflow) (λ (_ : Unit {0}). ok x) h in
    sym (ok-injective e)

pub dec_add_exact : (a b r : ℤ) → Dec.add a b ≡ ok r → r ≡ a +ℤ b
unfolding Dec.add
dec_add_exact a b r h = checked_exact (a +ℤ b) r h

pub dec_add_small : (a b : ℤ) → mag a < 2 ^ 314 → mag b < 2 ^ 314 → Dec.add a b ≡ ok (a +ℤ b)
unfolding Dec.add
dec_add_small a b ha hb = checked_in (a +ℤ b) (omega (arith, mag-+ a b))

-- The addition of types/dec.go is one that the shared code can rely on.
abbrev pub dec_addition : AdditionLaws Dec.add
dec_addition = record { exact = dec_add_exact; limit = 2 ^ 314; small = dec_add_small }

Below-negative : (d : Denom) (cs : DecCoins) → Below d cs → Below d (negative cs)
Below-negative d [] b = tt
Below-negative d (c ∷ cs) (p, b) = (p, Below-negative d cs b)

IsSorted-negative : (cs : DecCoins) → IsSorted cs → IsSorted (negative cs)
IsSorted-negative [] s = tt
IsSorted-negative (c ∷ cs) (b, s) = (Below-negative c.denom cs b, IsSorted-negative cs s)

if_neg_of :
    (t : Bool) (a : ℤ) → (if t then Integer.neg a else pos 0) ≡ Integer.neg (if t then a else pos 0)
if_neg_of true a = refl
if_neg_of false a = unfold Integer.neg in refl

total-negative : (d : Denom) (cs : DecCoins) → total d (negative cs) ≡ Integer.neg (total d cs)
total-negative d [] = unfold Integer.neg in refl
total-negative d (c ∷ cs) =
    rw (total-negative d cs, if_neg_of (denom_eq c.denom d) c.amount) (omega int_laws)

negative_of : (a : ℤ) → is_neg a ≡ true → a <ℤ pos 0
negative_of a h = ground arith

nonneg_of : (a : ℤ) → is_neg a ≡ false → pos 0 ≤ℤ a
nonneg_of a h = ground arith

held_nonneg : (d : Denom) (c : Coin) → is_negative c ≡ false → pos 0 ≤ℤ held d c
held_nonneg d c h = elim (Bool-cases (denom_eq c.denom d)) [
  | inl t ↦ rw t (nonneg_of c.amount h)
  | inr t ↦ rw t (omega arith)
]

-- What stands behind a coin in a sorted set holds none of its denomination.
total_behind :
    (c : Coin) (cs : DecCoins) (d : Denom)
    → Below c.denom cs
    → denom_eq c.denom d ≡ true
    → total d cs ≡ pos 0
total_behind c cs d b t =
    subst (λ k. total k cs ≡ pos 0) (eq_of_denom_eq c.denom d t)
      (total-Lacks c.denom cs (Lacks-of_Below c.denom cs b))

-- In a sorted set, a negative coin makes what the set holds of its denomination negative.
negative_total :
    (cs : DecCoins) → IsSorted cs → is_any_negative cs ≡ true → (d : Denom) × (total d cs <ℤ pos 0)
unfolding is_any_negative
negative_total [] s h = cc
negative_total (c ∷ cs) (b, s) h = elim (Bool-cases (is_negative c)) [
  | inl n ↦ (
    c.denom,
    rw (total_behind c cs c.denom b (denom_eq_self c.denom), denom_eq_self c.denom)
        (omega (int_laws, negative_of c.amount n)),
  )
  | inr n ↦
      let (d, short) = negative_total cs s (rw n at h) in
      (
        d,
        elim (Bool-cases (denom_eq c.denom d)) [
          | inl t ↦ absurd (omega (arith, rw (total_behind c cs d b t) at short))
          | inr t ↦ rw t (omega (int_laws, short))
        ],
      )
]

-- Where no coin is negative, no denomination is.
nonneg_total : (cs : DecCoins) (d : Denom) → is_any_negative cs ≡ false → pos 0 ≤ℤ total d cs
unfolding is_any_negative
nonneg_total [] d h = omega arith
nonneg_total (c ∷ cs) d h =
    let (first, rest) = or-false (is_negative c) (is_any_negative cs) h in
    omega (int_laws, held_nonneg d c first, nonneg_total cs d rest)

-- `p` is the difference of two sets, with the report of a negative coin.
abbrev pub IsDifference : DecCoins → DecCoins → DecCoins × Bool → Type 0
IsDifference xs ys p =
    IsSorted p.0
    × ((d : Denom) → total d p.0 ≡ total d xs -ℤ total d ys)
    × ((p.1 ≡ true) ↔ ((d : Denom) × (total d xs <ℤ total d ys)))

below_zero : (a b c : ℤ) → a ≡ b -ℤ c → b <ℤ c → a <ℤ pos 0
below_zero a b c e h = omega (int_laws, ap pos_part e, ap neg_part e)

above_zero : (a b c : ℤ) → a ≡ b -ℤ c → a <ℤ pos 0 → b <ℤ c
above_zero a b c e h = omega (int_laws, ap pos_part e, ap neg_part e)

module _ (xs ys diff : DecCoins) (sx : IsSorted xs) (sy : IsSorted ys)
    (made : add xs (negative ys) ≡ ok diff) where
  IsSorted-diff : IsSorted diff
  IsSorted-diff =
      IsSorted-safe_add Dec.add dec_addition xs (negative ys) diff sx (IsSorted-negative ys sy) made

  total_diff : (d : Denom) → total d diff ≡ total d xs -ℤ total d ys
  total_diff d =
      total-safe_add Dec.add dec_addition d xs (negative ys) diff made
      ∙ rw (total-negative d ys) (omega int_laws)

  reported : ((d : Denom) × (total d xs <ℤ total d ys)) → is_any_negative diff ≡ true
  reported (d, short) = elim (Bool-cases (is_any_negative diff)) [
    | inl n ↦ n
    | inr n ↦ absurd (omega (arith, nonneg_total diff d n, below_zero _ _ _ (total_diff d) short))
  ]

  short_of : is_any_negative diff ≡ true → (d : Denom) × (total d xs <ℤ total d ys)
  short_of n =
      let (d, short) = negative_total diff IsSorted-diff n in
      (d, above_zero _ _ _ (total_diff d) short)

  diff_lem : IsDifference xs ys (diff, is_any_negative diff)
  diff_lem = (IsSorted-diff, total_diff, (short_of, reported))

-- What `SafeSub` returns for sorted sets is sorted and exact in each denomination, and it reports a
-- negative coin exactly if the second set holds more of some denomination than the first.
pub safe_sub_lem :
    (xs ys : DecCoins) (p : DecCoins × Bool)
    → IsSorted xs
    → IsSorted ys
    → safe_sub xs ys ≡ ok p
    → IsDifference xs ys p
unfolding safe_sub
safe_sub_lem xs ys p sx sy h =
    let (diff, made, e) =
      >>=-eq-ok (add xs (negative ys)) (λ (diff : DecCoins). ok (diff, is_any_negative diff)) h in
    subst (IsDifference xs ys) (ok-injective e) (diff_lem xs ys diff sx sy made)

abbrev pub IsSmall : DecCoins → Type 0
IsSmall = All (λ (c : Coin). mag c.amount < 2 ^ 314)

IsSmall-negative : (cs : DecCoins) → IsSmall cs → IsSmall (negative cs)
IsSmall-negative [] h = tt
IsSmall-negative (c ∷ cs) (p, h) = (rw mag-neg p, IsSmall-negative cs h)

safe_sub_returns :
    (xs ys : DecCoins) → IsSmall xs → IsSmall ys → (p : DecCoins × Bool) × (safe_sub xs ys ≡ ok p)
unfolding safe_sub
safe_sub_returns xs ys hx hy =
    let (diff, e) =
      safe_add_returns Dec.add dec_addition xs (negative ys) hx (IsSmall-negative ys hy) in
    ((diff, is_any_negative diff), rw e)

-- For sorted sets of amounts below 2^314, `Sub` either returns a sorted set that is the exact
-- difference in each denomination, and then the first set holds no less of any denomination than the
-- second; or it panics, and then the first set holds less of some denomination.
pub sub_lem :
    (xs ys : DecCoins)
    → IsSorted xs
    → IsSorted ys
    → IsSmall xs
    → IsSmall ys
    → ((r : DecCoins) × (sub xs ys ≡ ok r)
        × IsSorted r
        × ((d : Denom) → total d r ≡ total d xs -ℤ total d ys)
        × ¬ ((d : Denom) × (total d xs <ℤ total d ys)))
      ⊎ ((sub xs ys ≡ panic negative_coin_amount) × ((d : Denom) × (total d xs <ℤ total d ys)))
unfolding sub
sub_lem xs ys sx sy hx hy =
    let (p, h) = safe_sub_returns xs ys hx hy in
    let (s, exact, iff) = safe_sub_lem xs ys p sx sy h in
    elim (Bool-cases p.1) [
      | inl n ↦ inr (rw (h, n), iff.0 n)
      | inr n ↦ inl (p.0, rw (h, n), s, exact, λ short. cc (n, iff.1 short))
    ]
