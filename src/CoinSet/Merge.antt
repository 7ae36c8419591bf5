-- ===== src/CoinSet/Merge.antt =====
-- `safeAdd` keeps a set sorted, free of zeros and positive, and it returns.
use Prim.Native.Nat.{Ordering}
use plugchain_sdk_go.Prelude.{
  ◌≡◌, sym, Bool-cases, inl, inr, List, [], ◌∷◌, ◌++◌, All-append, Result, ok, >>=-eq-ok,
  ok-injective,
}
use plugchain_sdk_go.Prelude.Integer.{ℤ}
use plugchain_sdk_go.Denom.{compare_denom}
use plugchain_sdk_go.Denom.Order.{compare_denom_flip, Ordering-cases}
use plugchain_sdk_go.CoinSet.{
  Coin, is_zero, remove_zero_coins, append_unless_zero, add_coin, safe_add_loop, safe_add,
}
use plugchain_sdk_go.CoinSet.Zeros.{nonzero, remove_zero_coins_lem}
use plugchain_sdk_go.CoinSet.Total.{AdditionLaws, add_coin_inv}
use plugchain_sdk_go.CoinSet.Sorted.{
  Below, IsSorted, Before, Below-trans, IsSorted-nonzero, Before-nonzero, Before-tail,
  IsSorted-append,
}

-- The sum so far is sorted and stands before what is left of both sets.
abbrev Merging : List Coin → List Coin → List Coin → Type 0
Merging xs ys sum = IsSorted xs × IsSorted ys × IsSorted sum × Before sum xs × Before sum ys

Before-append_unless_zero :
    (sum : List Coin) (c : Coin) (cs : List Coin)
    → Before sum cs
    → Below c.denom cs
    → Before (append_unless_zero sum c) cs
Before-append_unless_zero sum c cs h b = elim (Bool-cases (is_zero c)) [
  | inl z ↦ rw z h
  | inr z ↦ rw z (All-append _ sum (c ∷ []) h (b, tt))
]

IsSorted-append_unless_zero :
    (sum : List Coin) (c : Coin)
    → IsSorted sum
    → Before sum (c ∷ [])
    → IsSorted (append_unless_zero sum c)
IsSorted-append_unless_zero sum c s h = elim (Bool-cases (is_zero c)) [
  | inl z ↦ rw z s
  | inr z ↦ rw z (IsSorted-append sum (c ∷ []) s (tt, tt) h)
]

Before-head :
    (sum : List Coin) (x : Coin) (xs : List Coin) → Before sum (x ∷ xs) → Before sum (x ∷ [])
Before-head [] x xs h = tt
Before-head (s ∷ sum) x xs (p, h) = ((p.0, tt), Before-head sum x xs h)

IsSorted-rest :
    (sum cs : List Coin)
    → IsSorted sum
    → IsSorted cs
    → Before sum cs
    → IsSorted (sum ++ remove_zero_coins cs)
IsSorted-rest sum cs s t h =
    rw remove_zero_coins_lem
      (IsSorted-append sum (nonzero cs) s (IsSorted-nonzero cs t) (Before-nonzero sum cs h))

-- The coin that comes first is appended, if it has an amount, and the rest stays behind it.
Merging-step :
    (x : Coin) (xs : List Coin) (y : Coin) (ys sum : List Coin)
    → compare_denom x.denom y.denom ≡ Ordering.lt
    → Merging (x ∷ xs) (y ∷ ys) sum
    → Merging xs (y ∷ ys) (append_unless_zero sum x)
Merging-step x xs y ys sum o ((bx, sx), (by, sy), s, hx, hy) = (
  sx,
  (by, sy),
  IsSorted-append_unless_zero sum x s (Before-head sum x xs hx),
  Before-append_unless_zero sum x xs (Before-tail sum x xs hx) bx,
  Before-append_unless_zero sum x (y ∷ ys) hy (o, Below-trans x.denom y.denom ys o by),
)

-- The same with the two sets exchanged.
Merging-swap : (xs ys sum : List Coin) → Merging xs ys sum → Merging ys xs sum
Merging-swap xs ys sum (sx, sy, s, hx, hy) = (sy, sx, s, hy, hx)

Before-same :
    (sum : List Coin) (x r : Coin) → r.denom ≡ x.denom → Before sum (x ∷ []) → Before sum (r ∷ [])
Before-same [] x r e h = tt
Before-same (s ∷ sum) x r e (p, h) = ((rw e p.0, tt), Before-same sum x r e h)

-- Two coins of one denomination make one, which stands where they stood.
Merging-sum :
    (x : Coin) (xs : List Coin) (y : Coin) (ys sum : List Coin) (r : Coin)
    → x.denom ≡ y.denom
    → r.denom ≡ x.denom
    → Merging (x ∷ xs) (y ∷ ys) sum
    → Merging xs ys (append_unless_zero sum r)
Merging-sum x xs y ys sum r xy rx ((bx, sx), (by, sy), s, hx, hy) = (
  sx,
  sy,
  IsSorted-append_unless_zero sum r s (Before-same sum x r rx (Before-head sum x xs hx)),
  Before-append_unless_zero sum r xs (Before-tail sum x xs hx) (rw rx bx),
  Before-append_unless_zero sum r ys (Before-tail sum y ys hy) (rw (rx, xy) by),
)

module _ (add_amount : ℤ → ℤ → Result ℤ) (laws : AdditionLaws add_amount) where
  IsSorted-safe_add_loop :
      (xs ys sum r : List Coin)
      → Merging xs ys sum
      → safe_add_loop add_amount xs ys sum ≡ ok r
      → IsSorted r
  unfolding safe_add_loop
  IsSorted-safe_add_loop [] [] sum r (_, _, s, _, _) h = rw (sym (ok-injective h)) s
  IsSorted-safe_add_loop [] (y ∷ ys) sum r (_, sy, s, _, hy) h =
      rw (sym (ok-injective h)) (IsSorted-rest sum (y ∷ ys) s sy hy)
  IsSorted-safe_add_loop (x ∷ xs) [] sum r (sx, _, s, hx, _) h =
      rw (sym (ok-injective h)) (IsSorted-rest sum (x ∷ xs) s sx hx)
  IsSorted-safe_add_loop (x ∷ xs) (y ∷ ys) sum r m h =
      elim (Ordering-cases (compare_denom x.denom y.denom)) [
        | inl o ↦
            IsSorted-safe_add_loop xs (y ∷ ys) _ r (Merging-step x xs y ys sum o m)
              (rw (o, safe_add_loop) at h)
        | inr (inl o) ↦
            let (res, added, h') =
              >>=-eq-ok (add_coin add_amount x y) _ (rw (o, safe_add_loop) at h) in
            let (xy, rx, _) = add_coin_inv add_amount laws x y res added in
            IsSorted-safe_add_loop xs ys _ r (Merging-sum x xs y ys sum res xy rx m) h'
        | inr (inr o) ↦
            let back =
              Merging-step y ys x xs sum (rw (compare_denom_flip x.denom y.denom, o))
                (Merging-swap (x ∷ xs) (y ∷ ys) sum m) in
            IsSorted-safe_add_loop (x ∷ xs) ys _ r (Merging-swap ys (x ∷ xs) _ back)
              (rw (o, safe_add_loop) at h)
      ]

  -- The sum of two sorted sets is sorted.
  pub IsSorted-safe_add :
      (xs ys r : List Coin)
      → IsSorted xs
      → IsSorted ys
      → safe_add add_amount xs ys ≡ ok r
      → IsSorted r
  unfolding safe_add
  IsSorted-safe_add xs ys r sx sy h = IsSorted-safe_add_loop xs ys [] r (sx, sy, tt, tt, tt) h
