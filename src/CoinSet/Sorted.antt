-- ===== src/CoinSet/Sorted.antt =====
-- Sets whose denominations strictly increase, as lists.
use Prim.Native.Nat.{Ordering}
use plugchain_sdk_go.Prelude.{
  ◌≡◌, refl, false, Bool-cases, inl, inr, List, [], ◌∷◌, ◌++◌, All, All-append,
}
use plugchain_sdk_go.Prelude.Integer.{pos, int_laws}
use plugchain_sdk_go.Denom.{Denom, compare_denom, denom_eq}
use plugchain_sdk_go.Denom.Order.{compare_denom_trans, compare_denom_flip}
use plugchain_sdk_go.CoinSet.{Coin, is_zero}
use plugchain_sdk_go.CoinSet.Zeros.{nonzero}
use plugchain_sdk_go.CoinSet.Total.{total}

-- A denomination stands before every coin of a list.
abbrev pub Below : Denom → List Coin → Type 0
Below d = All (λ c. compare_denom d c.denom ≡ Ordering.lt)

abbrev pub IsSorted : List Coin → Type 0
IsSorted [] = Unit
IsSorted (c ∷ cs) = Below c.denom cs × IsSorted cs

-- Every coin of one list stands before every coin of another.
abbrev pub Before : List Coin → List Coin → Type 0
Before xs ys = All (λ (c : Coin). Below c.denom ys) xs

pub Below-trans :
    (d e : Denom) (cs : List Coin) → compare_denom d e ≡ Ordering.lt → Below e cs → Below d cs
Below-trans d e [] h b = tt
Below-trans d e (c ∷ cs) h (p, b) = (compare_denom_trans d e c.denom h p, Below-trans d e cs h b)

pub Below-nonzero : (d : Denom) (cs : List Coin) → Below d cs → Below d (nonzero cs)
Below-nonzero d [] b = tt
Below-nonzero d (c ∷ cs) (p, b) = elim (Bool-cases (is_zero c)) [
  | inl z ↦ rw z (Below-nonzero d cs b)
  | inr z ↦ rw z (p, Below-nonzero d cs b)
]

pub IsSorted-nonzero : (cs : List Coin) → IsSorted cs → IsSorted (nonzero cs)
IsSorted-nonzero [] s = tt
IsSorted-nonzero (c ∷ cs) (b, s) = elim (Bool-cases (is_zero c)) [
  | inl z ↦ rw z (IsSorted-nonzero cs s)
  | inr z ↦ rw z (Below-nonzero c.denom cs b, IsSorted-nonzero cs s)
]

pub Before-nonzero : (xs ys : List Coin) → Before xs ys → Before xs (nonzero ys)
Before-nonzero [] ys h = tt
Before-nonzero (x ∷ xs) ys (b, h) = (Below-nonzero x.denom ys b, Before-nonzero xs ys h)

pub Before-tail : (xs : List Coin) (y : Coin) (ys : List Coin) → Before xs (y ∷ ys) → Before xs ys
Before-tail [] y ys h = tt
Before-tail (x ∷ xs) y ys (b, h) = (b.1, Before-tail xs y ys h)

pub Before-nil : (xs : List Coin) → Before xs []
Before-nil [] = tt
Before-nil (x ∷ xs) = (tt, Before-nil xs)

pub Before-cons :
    (xs : List Coin) (y : Coin) (ys : List Coin)
    → Before xs (y ∷ [])
    → Below y.denom ys
    → Before xs (y ∷ ys)
Before-cons [] y ys h b = tt
Before-cons (x ∷ xs) y ys (p, h) b =
    ((p.0, Below-trans x.denom y.denom ys p.0 b), Before-cons xs y ys h b)

pub IsSorted-append :
    (xs ys : List Coin) → IsSorted xs → IsSorted ys → Before xs ys → IsSorted (xs ++ ys)
IsSorted-append [] ys sx sy h = sy
IsSorted-append (x ∷ xs) ys (b, sx) sy (p, h) =
    (All-append _ xs ys b p, IsSorted-append xs ys sx sy h)

All-split : (P : Coin → Type 0) (xs ys : List Coin) → All P (xs ++ ys) → All P xs × All P ys
All-split P [] ys h = (tt, h)
All-split P (x ∷ xs) ys (p, h) = let (hx, hy) = All-split P xs ys h in ((p, hx), hy)

pub IsSorted-split :
    (xs ys : List Coin) → IsSorted (xs ++ ys) → IsSorted xs × IsSorted ys × Before xs ys
IsSorted-split [] ys s = (tt, s, tt)
IsSorted-split (x ∷ xs) ys (b, s) =
    let (sx, sy, h) = IsSorted-split xs ys s in
    let (bx, by) = All-split _ xs ys b in ((bx, sx), sy, (by, h))

-- A denomination that no coin of a list has: the list holds none of it.
abbrev pub Lacks : Denom → List Coin → Type 0
Lacks d = All (λ c. denom_eq c.denom d ≡ false)

pub total-Lacks : (d : Denom) (cs : List Coin) → Lacks d cs → total d cs ≡ pos 0
total-Lacks d [] h = refl
total-Lacks d (c ∷ cs) (p, h) = rw (p, total-Lacks d cs h) (omega int_laws)

pub Lacks-of_Below : (d : Denom) (cs : List Coin) → Below d cs → Lacks d cs
Lacks-of_Below d [] b = tt
Lacks-of_Below d (c ∷ cs) (p, b) = (rw (compare_denom_flip d c.denom, p), Lacks-of_Below d cs b)

-- The coins before a denomination lack it.
pub Lacks-of_Before :
    (xs : List Coin) (d : Denom) (c : Coin) (ys : List Coin)
    → compare_denom c.denom d ≡ Ordering.lt
    → Before xs (c ∷ ys)
    → Lacks d xs
Lacks-of_Before [] d c ys h b = tt
Lacks-of_Before (x ∷ xs) d c ys h (p, b) =
    (rw (compare_denom_trans x.denom c.denom d p.0 h), Lacks-of_Before xs d c ys h b)

pub Lacks-of_Before_eq :
    (xs : List Coin) (c : Coin) (ys : List Coin) → Before xs (c ∷ ys) → Lacks c.denom xs
Lacks-of_Before_eq [] c ys b = tt
Lacks-of_Before_eq (x ∷ xs) c ys (p, b) = (rw p.0, Lacks-of_Before_eq xs c ys b)
