-- ===== src/Denom/Order.antt =====
-- `strings.Compare` is a total order of the denominations.
use Prim.Native.Nat.{Ordering}
use plugchain_sdk_go.Prelude.{◌≡◌, refl, true, arith, ◌⊎◌, inl, inr, [], ◌∷◌}
use plugchain_sdk_go.Denom.{Denom, compare_denom, denom_eq}

abbrev pub opposite : Ordering → Ordering
opposite Ordering.lt = Ordering.gt
opposite Ordering.eq = Ordering.eq
opposite Ordering.gt = Ordering.lt

pub compare_denom_self : (a : Denom) → compare_denom a a ≡ Ordering.eq
unfolding compare_denom
compare_denom_self [] = refl
compare_denom_self (x ∷ a) = ground (arith, compare_denom_self a)

pub eq_of_compare_denom : (a b : Denom) → compare_denom a b ≡ Ordering.eq → a ≡ b
unfolding compare_denom
eq_of_compare_denom [] [] h = refl
eq_of_compare_denom [] (y ∷ b) h = cc
eq_of_compare_denom (x ∷ a) [] h = cc
eq_of_compare_denom (x ∷ a) (y ∷ b) h = ground (arith, eq_of_compare_denom a b)

pub compare_denom_flip : (a b : Denom) → compare_denom b a ≡ opposite (compare_denom a b)
unfolding compare_denom
compare_denom_flip [] [] = refl
compare_denom_flip [] (y ∷ b) = refl
compare_denom_flip (x ∷ a) [] = refl
compare_denom_flip (x ∷ a) (y ∷ b) = ground (arith, compare_denom_flip a b)

pub compare_denom_trans :
    (a b c : Denom)
    → compare_denom a b ≡ Ordering.lt
    → compare_denom b c ≡ Ordering.lt
    → compare_denom a c ≡ Ordering.lt
unfolding compare_denom
compare_denom_trans [] [] c h k = cc
compare_denom_trans [] (y ∷ b) [] h k = cc
compare_denom_trans [] (y ∷ b) (z ∷ c) h k = refl
compare_denom_trans (x ∷ a) [] c h k = cc
compare_denom_trans (x ∷ a) (y ∷ b) [] h k = cc
compare_denom_trans (x ∷ a) (y ∷ b) (z ∷ c) h k = ground (arith, compare_denom_trans a b c)

pub eq_of_denom_eq : (a b : Denom) → denom_eq a b ≡ true → a ≡ b
eq_of_denom_eq a b h = ground (arith, eq_of_compare_denom a b)

pub denom_eq_self : (a : Denom) → denom_eq a a ≡ true
denom_eq_self a = rw compare_denom_self

pub Ordering-cases : (o : Ordering) → (o ≡ Ordering.lt) ⊎ ((o ≡ Ordering.eq) ⊎ (o ≡ Ordering.gt))
Ordering-cases Ordering.lt = inl refl
Ordering-cases Ordering.eq = inr (inl refl)
Ordering-cases Ordering.gt = inr (inr refl)
