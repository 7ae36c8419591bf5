-- ===== src/CoinSet/Kept.antt =====
-- What holds of the coins of a sum made by `safeAdd`, and that the sum is returned.
use Prim.Native.Nat.{Ordering}
use plugchain_sdk_go.Prelude.{
  ◌<◌, ◌≡◌, refl, sym, false, Bool-cases, inl, inr, List, [], ◌∷◌, ◌++◌, All, All-append, Result,
  ok, >>=-eq-ok, ok-injective,
}
use plugchain_sdk_go.Prelude.Integer.{ℤ, mag, ◌+ℤ◌}
use plugchain_sdk_go.Denom.{compare_denom}
use plugchain_sdk_go.Denom.Order.{Ordering-cases}
use plugchain_sdk_go.CoinSet.{
  Coin, is_zero, remove_zero_coins, append_unless_zero, add_coin, safe_add_loop, safe_add,
}
use plugchain_sdk_go.CoinSet.Zeros.{nonzero, remove_zero_coins_lem}
use plugchain_sdk_go.CoinSet.Total.{AdditionLaws}

module _ (add_amount : ℤ → ℤ → Result ℤ) (laws : AdditionLaws add_amount) where
  -- What holds of every coin of two sets, and is kept by the sum of two coins, holds of every
  -- coin of the sum.
  module _ (P : Coin → Type 0)
      (kept : (a b r : Coin) → P a → P b → add_coin add_amount a b ≡ ok r → P r) where
    All-append_unless_zero :
        (sum : List Coin) (c : Coin) → All P sum → P c → All P (append_unless_zero sum c)
    All-append_unless_zero sum c h p = elim (Bool-cases (is_zero c)) [
      | inl z ↦ rw z h
      | inr z ↦ rw z (All-append P sum (c ∷ []) h (p, tt))
    ]

    All-nonzero : (cs : List Coin) → All P cs → All P (nonzero cs)
    All-nonzero [] h = tt
    All-nonzero (c ∷ cs) (p, h) = elim (Bool-cases (is_zero c)) [
      | inl z ↦ rw z (All-nonzero cs h)
      | inr z ↦ rw z (p, All-nonzero cs h)
    ]

    All-rest : (sum cs : List Coin) → All P sum → All P cs → All P (sum ++ remove_zero_coins cs)
    All-rest sum cs s h =
        rw remove_zero_coins_lem (All-append P sum (nonzero cs) s (All-nonzero cs h))

    All-safe_add_loop :
        (xs ys sum r : List Coin)
        → All P xs
        → All P ys
        → All P sum
        → safe_add_loop add_amount xs ys sum ≡ ok r
        → All P r
    unfolding safe_add_loop
    All-safe_add_loop [] [] sum r _ _ s h = rw (sym (ok-injective h)) s
    All-safe_add_loop [] (y ∷ ys) sum r _ hy s h =
        rw (sym (ok-injective h)) (All-rest sum (y ∷ ys) s hy)
    All-safe_add_loop (x ∷ xs) [] sum r hx _ s h =
        rw (sym (ok-injective h)) (All-rest sum (x ∷ xs) s hx)
    All-safe_add_loop (x ∷ xs) (y ∷ ys) sum r (px, hx) (py, hy) s h =
        elim (Ordering-cases (compare_denom x.denom y.denom)) [
          | inl o ↦
              All-safe_add_loop xs (y ∷ ys) _ r hx (py, hy) (All-append_unless_zero sum x s px)
                (rw (o, safe_add_loop) at h)
          | inr (inl o) ↦
              let (res, added, h') =
                >>=-eq-ok (add_coin add_amount x y) _ (rw (o, safe_add_loop) at h) in
              All-safe_add_loop xs ys _ r hx hy
                (All-append_unless_zero sum res s (kept x y res px py added)) h'
          | inr (inr o) ↦
              All-safe_add_loop (x ∷ xs) ys _ r (px, hx) hy (All-append_unless_zero sum y s py)
                (rw (o, safe_add_loop) at h)
        ]

    pub All-safe_add :
        (xs ys r : List Coin) → All P xs → All P ys → safe_add add_amount xs ys ≡ ok r → All P r
    unfolding safe_add
    All-safe_add xs ys r hx hy h = All-safe_add_loop xs ys [] r hx hy tt h

  HasAmounts-nonzero : (cs : List Coin) → All (λ c. is_zero c ≡ false) (nonzero cs)
  HasAmounts-nonzero [] = tt
  HasAmounts-nonzero (c ∷ cs) = elim (Bool-cases (is_zero c)) [
    | inl z ↦ rw z (HasAmounts-nonzero cs)
    | inr z ↦ rw z (z, HasAmounts-nonzero cs)
  ]

  HasAmounts-append_unless_zero :
      (sum : List Coin) (c : Coin)
      → All (λ c. is_zero c ≡ false) sum
      → All (λ c. is_zero c ≡ false) (append_unless_zero sum c)
  HasAmounts-append_unless_zero sum c h = elim (Bool-cases (is_zero c)) [
    | inl z ↦ rw z h
    | inr z ↦ rw z (All-append _ sum (c ∷ []) h (z, tt))
  ]

  -- The coins that `safeAdd` returns have amounts, whatever the sets hold.
  HasAmounts-safe_add_loop :
      (xs ys sum r : List Coin)
      → All (λ c. is_zero c ≡ false) sum
      → safe_add_loop add_amount xs ys sum ≡ ok r
      → All (λ c. is_zero c ≡ false) r
  unfolding safe_add_loop
  HasAmounts-safe_add_loop [] [] sum r s h = rw (sym (ok-injective h)) s
  HasAmounts-safe_add_loop [] (y ∷ ys) sum r s h =
      rw (sym (ok-injective h), remove_zero_coins_lem)
        (All-append _ sum (nonzero (y ∷ ys)) s (HasAmounts-nonzero (y ∷ ys)))
  HasAmounts-safe_add_loop (x ∷ xs) [] sum r s h =
      rw (sym (ok-injective h), remove_zero_coins_lem)
        (All-append _ sum (nonzero (x ∷ xs)) s (HasAmounts-nonzero (x ∷ xs)))
  HasAmounts-safe_add_loop (x ∷ xs) (y ∷ ys) sum r s h =
      elim (Ordering-cases (compare_denom x.denom y.denom)) [
        | inl o ↦
            HasAmounts-safe_add_loop xs (y ∷ ys) _ r (HasAmounts-append_unless_zero sum x s)
              (rw (o, safe_add_loop) at h)
        | inr (inl o) ↦
            let (res, added, h') =
              >>=-eq-ok (add_coin add_amount x y) _ (rw (o, safe_add_loop) at h) in
            HasAmounts-safe_add_loop xs ys _ r (HasAmounts-append_unless_zero sum res s) h'
        | inr (inr o) ↦
            HasAmounts-safe_add_loop (x ∷ xs) ys _ r (HasAmounts-append_unless_zero sum y s)
              (rw (o, safe_add_loop) at h)
      ]

  pub HasAmounts-safe_add :
      (xs ys r : List Coin) → safe_add add_amount xs ys ≡ ok r → All (λ c. is_zero c ≡ false) r
  unfolding safe_add
  HasAmounts-safe_add xs ys r h = HasAmounts-safe_add_loop xs ys [] r tt h

  add_coin_small :
      (x y : Coin)
      → compare_denom x.denom y.denom ≡ Ordering.eq
      → mag x.amount < laws.limit
      → mag y.amount < laws.limit
      → (r : Coin) × (add_coin add_amount x y ≡ ok r)
  unfolding add_coin
  add_coin_small x y o hx hy = (
    record { denom = x.denom; amount = x.amount +ℤ y.amount },
    rw (o, laws.small x.amount y.amount hx hy),
  )

  safe_add_loop_returns :
      (xs ys sum : List Coin)
      → All (λ (c : Coin). mag c.amount < laws.limit) xs
      → All (λ (c : Coin). mag c.amount < laws.limit) ys
      → (r : List Coin) × (safe_add_loop add_amount xs ys sum ≡ ok r)
  unfolding safe_add_loop
  safe_add_loop_returns [] [] sum hx hy = (sum, refl)
  safe_add_loop_returns [] (y ∷ ys) sum hx hy = (sum ++ remove_zero_coins (y ∷ ys), refl)
  safe_add_loop_returns (x ∷ xs) [] sum hx hy = (sum ++ remove_zero_coins (x ∷ xs), refl)
  safe_add_loop_returns (x ∷ xs) (y ∷ ys) sum (px, hx) (py, hy) =
      elim (Ordering-cases (compare_denom x.denom y.denom)) [
        | inl o ↦
            let (r, e) = safe_add_loop_returns xs (y ∷ ys) (append_unless_zero sum x) hx (py, hy) in
            (r, rw (o, safe_add_loop) e)
        | inr (inl o) ↦
            let (res, added) = add_coin_small x y o px py in
            let (r, e) = safe_add_loop_returns xs ys (append_unless_zero sum res) hx hy in
            (r, rw (o, safe_add_loop, added) e)
        | inr (inr o) ↦
            let (r, e) = safe_add_loop_returns (x ∷ xs) ys (append_unless_zero sum y) (px, hx) hy in
            (r, rw (o, safe_add_loop) e)
      ]

  -- Amounts below the limit are added without a panic, whatever the order of the coins.
  pub safe_add_returns :
      (xs ys : List Coin)
      → All (λ (c : Coin). mag c.amount < laws.limit) xs
      → All (λ (c : Coin). mag c.amount < laws.limit) ys
      → (r : List Coin) × (safe_add add_amount xs ys ≡ ok r)
  unfolding safe_add
  safe_add_returns xs ys hx hy = safe_add_loop_returns xs ys [] hx hy
