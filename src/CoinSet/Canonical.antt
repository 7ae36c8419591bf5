-- ===== src/CoinSet/Canonical.antt =====
-- The sets of coins of types/coin.go and types/dec_coin.go as maps from denominations to amounts: a
-- sorted set without zero coins is the one list for its map.
use Prim.Native.Nat.{Ordering}
use plugchain_sdk_go.Prelude.{
  ◌≡◌, refl, sym, ap, ◌∙◌, false, arith, inl, inr, List, [], ◌∷◌, All, Result, ok,
}
use plugchain_sdk_go.Prelude.Integer
use plugchain_sdk_go.Prelude.Integer.{ℤ, pos, mag, ◌+ℤ◌, +ℤ_assoc, int_laws}
use plugchain_sdk_go.Denom.{Denom, compare_denom}
use plugchain_sdk_go.Denom.Order.{
  eq_of_compare_denom, denom_eq_self, Ordering-cases, compare_denom_flip,
}
use plugchain_sdk_go.CoinSet.{Coin, is_zero, safe_add}
use plugchain_sdk_go.CoinSet.Total.{held, total, AdditionLaws, total-safe_add}
use plugchain_sdk_go.CoinSet.Sorted.{Below, IsSorted, Below-trans, total-Lacks, Lacks-of_Below}
use plugchain_sdk_go.CoinSet.Merge.{IsSorted-safe_add}
use plugchain_sdk_go.CoinSet.Kept.{HasAmounts-safe_add}

abbrev pub HasAmounts : List Coin → Type 0
HasAmounts cs = All (λ c. is_zero c ≡ false) cs

add_zero : (a : ℤ) → a +ℤ pos 0 ≡ a
add_zero a = omega int_laws

total-Below : (d : Denom) (cs : List Coin) → Below d cs → total d cs ≡ pos 0
total-Below d cs b = total-Lacks d cs (Lacks-of_Below d cs b)

-- The first coin of a sorted set is all that the set holds of its denomination.
total-head : (c : Coin) (cs : List Coin) → IsSorted (c ∷ cs) → total c.denom (c ∷ cs) ≡ c.amount
total-head c cs (b, s) = rw (denom_eq_self c.denom, total-Below c.denom cs b) (add_zero c.amount)

not_zero : (c : Coin) → is_zero c ≡ false → c.amount ≡ pos 0 → ⊥
not_zero c h e = let z : mag c.amount ≡ 0 = ap mag e in absurd (ground arith)

-- A set whose coins all stand behind a denomination does not hold the amounts of one that starts with it.
head_missing :
    (c : Coin) (cs ys : List Coin)
    → IsSorted (c ∷ cs)
    → is_zero c ≡ false
    → Below c.denom ys
    → total c.denom (c ∷ cs) ≡ total c.denom ys
    → ⊥
head_missing c cs ys s h b e = not_zero c h (sym (total-head c cs s) ∙ e ∙ total-Below c.denom ys b)

cancel : (a b c : ℤ) → a +ℤ b ≡ a +ℤ c → b ≡ c
cancel a b c h =
    let back : (x : ℤ) → Integer.neg a +ℤ (a +ℤ x) ≡ x = (λ x. omega int_laws) in
    sym (back b) ∙ ap (λ x. Integer.neg a +ℤ x) h ∙ back c

flip_gt : (a b : Denom) → compare_denom a b ≡ Ordering.gt → compare_denom b a ≡ Ordering.lt
flip_gt a b h = rw (compare_denom_flip a b, h)

-- Two sorted sets without zero coins that hold the same of every denomination are the same
-- list.
pub coin_set_canonical :
    (xs ys : List Coin)
    → IsSorted xs
    → IsSorted ys
    → HasAmounts xs
    → HasAmounts ys
    → ((d : Denom) → total d xs ≡ total d ys)
    → xs ≡ ys
coin_set_canonical [] [] sx sy hx hy e = refl
coin_set_canonical [] (y ∷ ys) sx sy hx (hy, _) e =
    absurd (head_missing y ys [] sy hy tt (sym (e y.denom)))
coin_set_canonical (x ∷ xs) [] sx sy (hx, _) hy e =
    absurd (head_missing x xs [] sx hx tt (e x.denom))
coin_set_canonical (x ∷ xs) (y ∷ ys) (bx, sx) (by, sy) (hx, kx) (hy, ky) e =
    elim (Ordering-cases (compare_denom x.denom y.denom)) [
      | inl o ↦ absurd (
          head_missing x xs (y ∷ ys) (bx, sx) hx (o, Below-trans x.denom y.denom ys o by)
            (e x.denom))
      | inr (inr o) ↦
          let p = flip_gt x.denom y.denom o in
          absurd (
            head_missing y ys (x ∷ xs) (by, sy) hy (p, Below-trans y.denom x.denom xs p bx)
              (sym (e y.denom)))
      | inr (inl o) ↦
          let same = eq_of_compare_denom x.denom y.denom o in
          let amount : x.amount ≡ y.amount =
            sym (total-head x xs (bx, sx))
            ∙ e x.denom
            ∙ ap (λ d. total d (y ∷ ys)) same
            ∙ total-head y ys (by, sy) in
          let coin : x ≡ y = cc in
          let rest : (d : Denom) → total d xs ≡ total d ys =
            (λ d. cancel (held d x) (total d xs) (total d ys) (e d ∙ rw coin refl)) in
          rw (coin, coin_set_canonical xs ys sx sy kx ky rest)
    ]

module _ (add_amount : ℤ → ℤ → Result ℤ) (laws : AdditionLaws add_amount) where
  -- Sorted sets of coins are added in either order, and three of them in either grouping, with the same
  -- list as the result, wherever the additions return.
  pub safe_add_comm :
      (xs ys r r' : List Coin)
      → IsSorted xs
      → IsSorted ys
      → safe_add add_amount xs ys ≡ ok r
      → safe_add add_amount ys xs ≡ ok r'
      → r ≡ r'
  safe_add_comm xs ys r r' sx sy h h' =
      coin_set_canonical r r' (IsSorted-safe_add add_amount laws xs ys r sx sy h)
        (IsSorted-safe_add add_amount laws ys xs r' sy sx h')
        (HasAmounts-safe_add add_amount laws xs ys r h)
        (HasAmounts-safe_add add_amount laws ys xs r' h')
        (λ d.
          rw
            (
              total-safe_add add_amount laws d xs ys r h,
              total-safe_add add_amount laws d ys xs r' h',
            )
            (omega int_laws))

  pub safe_add_assoc :
      (xs ys zs a b r r' : List Coin)
      → IsSorted xs
      → IsSorted ys
      → IsSorted zs
      → safe_add add_amount xs ys ≡ ok a
      → safe_add add_amount a zs ≡ ok r
      → safe_add add_amount ys zs ≡ ok b
      → safe_add add_amount xs b ≡ ok r'
      → r ≡ r'
  safe_add_assoc xs ys zs a b r r' sx sy sz ha hr hb hr' =
      let sa = IsSorted-safe_add add_amount laws xs ys a sx sy ha in
      let sb = IsSorted-safe_add add_amount laws ys zs b sy sz hb in
      coin_set_canonical r r' (IsSorted-safe_add add_amount laws a zs r sa sz hr)
        (IsSorted-safe_add add_amount laws xs b r' sx sb hr')
        (HasAmounts-safe_add add_amount laws a zs r hr)
        (HasAmounts-safe_add add_amount laws xs b r' hr')
        (λ d.
          rw
            (
              total-safe_add add_amount laws d a zs r hr,
              total-safe_add add_amount laws d xs ys a ha,
              total-safe_add add_amount laws d xs b r' hr',
              total-safe_add add_amount laws d ys zs b hb,
            )
            (omega int_laws))
