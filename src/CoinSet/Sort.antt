-- ===== src/CoinSet/Sort.antt =====
-- Sorting a set by denomination keeps its coins, and puts distinct denominations in strict order.
use Prim.Native.Nat.{Ordering}
use plugchain_sdk_go.Prelude.{
  ◌≡◌, refl, ap, Bool-cases, ◌∙◌, suc, length, inl, inr, List, [], ◌∷◌, All,
}
use plugchain_sdk_go.Prelude.Integer.{◌+ℤ◌, int_laws}
use plugchain_sdk_go.Denom.{Denom, compare_denom, denom_lt, is_eq}
use plugchain_sdk_go.Denom.Order.{compare_denom_flip, Ordering-cases}
use plugchain_sdk_go.CoinSet.{Coin, sort, insert_coin, is_zero}
use plugchain_sdk_go.CoinSet.Zeros.{nonzero}
use plugchain_sdk_go.CoinSet.Total.{held, total}
use plugchain_sdk_go.CoinSet.Sorted.{IsSorted, Below-trans, Lacks}

-- No two coins have one denomination.
abbrev pub IsDistinct : List Coin → Type 0
IsDistinct [] = Unit
IsDistinct (c ∷ cs) = Lacks c.denom cs × IsDistinct cs

total-insert_coin :
    (d : Denom) (c : Coin) (cs : List Coin) → total d (insert_coin c cs) ≡ held d c +ℤ total d cs
total-insert_coin d c [] = refl
total-insert_coin d c (x ∷ cs) = elim (Bool-cases (denom_lt x.denom c.denom)) [
  | inl o ↦ rw (o, total-insert_coin d c cs) (omega int_laws)
  | inr o ↦ rw o
]

pub total-sort : (d : Denom) (cs : List Coin) → total d (sort cs) ≡ total d cs
unfolding sort
total-sort d [] = refl
total-sort d (c ∷ cs) = rw (total-insert_coin d c (sort cs), total-sort d cs)

module _ (P : Coin → Type 0) where
  All-insert_coin : (c : Coin) (cs : List Coin) → P c → All P cs → All P (insert_coin c cs)
  All-insert_coin c [] p h = (p, tt)
  All-insert_coin c (x ∷ cs) p (px, h) = elim (Bool-cases (denom_lt x.denom c.denom)) [
    | inl o ↦ rw o (px, All-insert_coin c cs p h)
    | inr o ↦ rw o (p, (px, h))
  ]

  pub All-sort : (cs : List Coin) → All P cs → All P (sort cs)
  unfolding sort
  All-sort [] h = tt
  All-sort (c ∷ cs) (p, h) = All-insert_coin c (sort cs) p (All-sort cs h)

  pub All-of_nonzero : (cs : List Coin) → All P cs → All P (nonzero cs)
  All-of_nonzero [] h = tt
  All-of_nonzero (c ∷ cs) (p, h) = elim (Bool-cases (is_zero c)) [
    | inl z ↦ rw z (All-of_nonzero cs h)
    | inr z ↦ rw z (p, All-of_nonzero cs h)
  ]

IsSorted-insert_coin :
    (c : Coin) (cs : List Coin) → Lacks c.denom cs → IsSorted cs → IsSorted (insert_coin c cs)
IsSorted-insert_coin c [] l s = (tt, tt)
IsSorted-insert_coin c (x ∷ cs) (p, l) (b, s) =
    elim (Ordering-cases (compare_denom x.denom c.denom)) [
      | inl o ↦ rw o (
        All-insert_coin (λ k. compare_denom x.denom k.denom ≡ Ordering.lt) c cs o b,
        IsSorted-insert_coin c cs l s,
      )
      | inr (inl o) ↦ cc (ap is_eq o, p)
      | inr (inr o) ↦
          let flip = compare_denom_flip x.denom c.denom in
          let lt = rw o at flip in rw o ((lt, Below-trans c.denom x.denom cs lt b), (b, s))
    ]

pub IsSorted-sort : (cs : List Coin) → IsDistinct cs → IsSorted (sort cs)
unfolding sort
IsSorted-sort [] h = tt
IsSorted-sort (c ∷ cs) (l, h) =
    IsSorted-insert_coin c (sort cs) (All-sort _ cs l) (IsSorted-sort cs h)

pub IsDistinct-nonzero : (cs : List Coin) → IsDistinct cs → IsDistinct (nonzero cs)
IsDistinct-nonzero [] h = tt
IsDistinct-nonzero (c ∷ cs) (l, h) = elim (Bool-cases (is_zero c)) [
  | inl z ↦ rw z (IsDistinct-nonzero cs h)
  | inr z ↦ rw z (All-of_nonzero _ cs l, IsDistinct-nonzero cs h)
]

length-insert_coin : (c : Coin) (cs : List Coin) → length (insert_coin c cs) ≡ suc (length cs)
length-insert_coin c [] = refl
length-insert_coin c (d ∷ ds) = elim (Bool-cases (denom_lt d.denom c.denom)) [
  | inl t ↦ rw t (ap suc (length-insert_coin c ds))
  | inr t ↦ rw t
]

pub length-sort : (cs : List Coin) → length (sort cs) ≡ length cs
unfolding sort
length-sort [] = refl
length-sort (c ∷ cs) = length-insert_coin c (sort cs) ∙ ap suc (length-sort cs)
