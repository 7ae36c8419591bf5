-- ===== src/CoinSet/Total.antt =====
-- What a set holds of each denomination, and that `safeAdd` adds it up.
use plugchain_sdk_go.Prelude.{
  ℕ, ◌<◌, ◌≡◌, refl, sym, ap, ◌∙◌, Bool, true, false, arith, not, if◌then◌else◌, Bool-cases, inl,
  inr, List, [], ◌∷◌, ◌++◌, Result, ok, panic_if, >>=-eq-ok, ok-injective, panic_if-passed, ==_iff,
}
use plugchain_sdk_go.Prelude.Integer.{ℤ, pos, mag, ◌+ℤ◌, +ℤ_assoc, int_laws}
use plugchain_sdk_go.Denom.{Denom, compare_denom, denom_eq}
use plugchain_sdk_go.Denom.Order.{eq_of_denom_eq, Ordering-cases}
use plugchain_sdk_go.CoinSet.{Coin, is_zero, add_coin, append_unless_zero, safe_add_loop, safe_add}
use plugchain_sdk_go.CoinSet.Zeros.{nonzero, remove_zero_coins_lem}

-- What one coin holds of a denomination.
abbrev pub held : Denom → Coin → ℤ
held d c = if denom_eq c.denom d then c.amount else pos 0

-- The sum of the amounts of a denomination, wherever they stand in the list.
abbrev pub total : Denom → List Coin → ℤ
total d [] = pos 0
total d (c ∷ cs) = held d c +ℤ total d cs

pub +ℤ_zero : (a : ℤ) → pos 0 +ℤ a ≡ a
+ℤ_zero a = omega int_laws

pub total-append : (d : Denom) (xs ys : List Coin) → total d (xs ++ ys) ≡ total d xs +ℤ total d ys
total-append d [] ys = sym (+ℤ_zero (total d ys))
total-append d (x ∷ xs) ys =
    rw (total-append d xs ys) (sym (+ℤ_assoc (held d x) (total d xs) (total d ys)))

zero_of_mag : (a : ℤ) → mag a ≡ 0 → a ≡ pos 0
zero_of_mag a h = ground arith

if_same : (b : Bool) → (if b then pos 0 else pos 0) ≡ pos 0
if_same true = refl
if_same false = refl

held_zero : (d : Denom) (c : Coin) → is_zero c ≡ true → held d c ≡ pos 0
held_zero d c h = rw (zero_of_mag c.amount ((==_iff _ _).0 h)) (if_same (denom_eq c.denom d))

pub total-nonzero : (d : Denom) (cs : List Coin) → total d (nonzero cs) ≡ total d cs
total-nonzero d [] = refl
total-nonzero d (c ∷ cs) = elim (Bool-cases (is_zero c)) [
  | inl z ↦ rw (z, held_zero d c z, total-nonzero d cs) (sym (+ℤ_zero (total d cs)))
  | inr z ↦ rw (z, total-nonzero d cs)
]

total-append_unless_zero :
    (d : Denom) (sum : List Coin) (c : Coin)
    → total d (append_unless_zero sum c) ≡ total d sum +ℤ held d c
total-append_unless_zero d sum c = elim (Bool-cases (is_zero c)) [
  | inl z ↦ rw (z, held_zero d c z) (omega int_laws)
  | inr z ↦ rw (z, total-append d sum (c ∷ [])) (omega int_laws)
]

-- What the sets rely on in the checked addition of amounts: a sum that is returned is exact, and
-- amounts below the limit are added without a panic.
pub record AdditionLaws (add_amount : ℤ → ℤ → Result ℤ) : Type 0 where
  pub exact : (a b r : ℤ) → add_amount a b ≡ ok r → r ≡ a +ℤ b
  pub limit : ℕ
  pub small : (a b : ℤ) → mag a < limit → mag b < limit → add_amount a b ≡ ok (a +ℤ b)

if_sum :
    (t : Bool) (a b : ℤ)
    → (if t then a +ℤ b else pos 0) ≡ (if t then a else pos 0) +ℤ (if t then b else pos 0)
if_sum true a b = refl
if_sum false a b = omega int_laws

held_of :
    (d : Denom) (a b r : Coin)
    → a.denom ≡ b.denom
    → r.denom ≡ a.denom
    → r.amount ≡ a.amount +ℤ b.amount
    → held d r ≡ held d a +ℤ held d b
held_of d a b r ab ra e = rw (ra, e, ← ab) (if_sum (denom_eq a.denom d) a.amount b.amount)

module _ (add_amount : ℤ → ℤ → Result ℤ) (laws : AdditionLaws add_amount) where
  -- Two coins that are added have one denomination, and so has their sum.
  pub add_coin_inv :
      (a b r : Coin)
      → add_coin add_amount a b ≡ ok r
      → (a.denom ≡ b.denom) × (r.denom ≡ a.denom) × (r.amount ≡ a.amount +ℤ b.amount)
  unfolding add_coin
  add_coin_inv a b r h =
      let (_, same, h') = >>=-eq-ok (panic_if (not (denom_eq a.denom b.denom)) _) _ h in
      let (res, sum, made) = >>=-eq-ok (add_amount a.amount b.amount) _ h' in
      let made_of = ok-injective made in
      (
        eq_of_denom_eq a.denom b.denom (panic_if-passed _ _ same),
        ap (λ (c : Coin). c.denom) (sym made_of),
        ap (λ (c : Coin). c.amount) (sym made_of) ∙ laws.exact a.amount b.amount res sum,
      )

  held_sum :
      (d : Denom) (a b r : Coin) → add_coin add_amount a b ≡ ok r → held d r ≡ held d a +ℤ held d b
  held_sum d a b r h = let (ab, ra, e) = add_coin_inv a b r h in held_of d a b r ab ra e

  pub total-safe_add_loop :
      (d : Denom) (xs ys sum r : List Coin)
      → safe_add_loop add_amount xs ys sum ≡ ok r
      → total d r ≡ total d sum +ℤ (total d xs +ℤ total d ys)
  unfolding safe_add_loop
  total-safe_add_loop d [] [] sum r h = rw (sym (ok-injective h)) (omega int_laws)
  total-safe_add_loop d [] (y ∷ ys) sum r h =
      rw (sym (ok-injective h), total-append, remove_zero_coins_lem, total-nonzero) (omega int_laws)
  total-safe_add_loop d (x ∷ xs) [] sum r h =
      rw (sym (ok-injective h), total-append, remove_zero_coins_lem, total-nonzero) (omega int_laws)
  total-safe_add_loop d (x ∷ xs) (y ∷ ys) sum r h =
      elim (Ordering-cases (compare_denom x.denom y.denom)) [
        | inl o ↦
            let h' = rw (o, safe_add_loop) at h in
            rw (total-safe_add_loop d xs (y ∷ ys) _ r h', total-append_unless_zero) (omega int_laws)
        | inr (inl o) ↦
            let h' = rw (o, safe_add_loop) at h in
            let (res, added, h'') = >>=-eq-ok (add_coin add_amount x y) _ h' in
            rw
              (
                total-safe_add_loop d xs ys _ r h'',
                total-append_unless_zero,
                held_sum d x y res added,
              )
              (omega int_laws)
        | inr (inr o) ↦
            let h' = rw (o, safe_add_loop) at h in
            rw (total-safe_add_loop d (x ∷ xs) ys _ r h', total-append_unless_zero) (omega int_laws)
      ]

  -- A sum holds of every denomination what the two sets hold together.
  pub total-safe_add :
      (d : Denom) (xs ys r : List Coin)
      → safe_add add_amount xs ys ≡ ok r
      → total d r ≡ total d xs +ℤ total d ys
  unfolding safe_add
  total-safe_add d xs ys r h = total-safe_add_loop d xs ys [] r h ∙ +ℤ_zero _
