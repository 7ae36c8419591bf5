-- ===== src/Prelude/Integer.antt =====
-- Go's `big.Int` as far as the modelled code uses it: signed integers of any size.
-- `Quo` and `Rem` truncate towards zero, `Mod` is the Euclidean remainder.
use native.Mathlib.Nat.{mod-lt, div-add-mod', zero-div, mul-zero}
use plugchain_sdk_go.Prelude.{
  Bool-cases, inl, inr, ==_iff, ℕ, zero, suc, ◌+◌, ◌-◌, ◌*◌, ◌/◌, ◌%◌, ◌≤◌, ◌<◌, ◌≡◌, refl, sym,
  ◌∙◌, ◌⊎◌, Bool, true, false, arith, ltb, leb, ◌==◌, if◌then◌else◌,
}

-- `negsuc n` is -(n + 1).
pub data ℤ : Type 0 where
  pos : ℕ → ℤ
  negsuc : ℕ → ℤ

abbrev pub pos_part : ℤ → ℕ
pos_part (pos n) = n
pos_part (negsuc n) = 0

abbrev pub neg_part : ℤ → ℕ
neg_part (pos n) = 0
neg_part (negsuc n) = suc n

-- a - b, as an integer.
abbrev pub sub_ℕ : ℕ → ℕ → ℤ
sub_ℕ a b = if leb b a then pos (a - b) else negsuc (b - a - 1)

-- The absolute value, and the test `Sign() == -1`.
abbrev pub mag : ℤ → ℕ
mag (pos n) = n
mag (negsuc n) = suc n

abbrev pub is_neg : ℤ → Bool
is_neg (pos n) = false
is_neg (negsuc n) = true

abbrev pub differ : Bool → Bool → Bool
differ true b = if b then false else true
differ false b = b

-- The integer with a sign and a magnitude; zero has no sign.
abbrev pub signed : Bool → ℕ → ℤ
signed false n = pos n
signed true zero = pos 0
signed true (suc n) = negsuc n

infixl 65 ◌+ℤ◌ ◌-ℤ◌
infixl 70 ◌*ℤ◌
infix 50 ◌≤ℤ◌ ◌<ℤ◌
unfoldable pub ◌+ℤ◌ : ℤ → ℤ → ℤ
a +ℤ b = sub_ℕ (pos_part a + pos_part b) (neg_part a + neg_part b)

unfoldable pub ◌-ℤ◌ : ℤ → ℤ → ℤ
a -ℤ b = sub_ℕ (pos_part a + neg_part b) (neg_part a + pos_part b)

unfoldable pub ◌*ℤ◌ : ℤ → ℤ → ℤ
a *ℤ b = signed (differ (is_neg a) (is_neg b)) (mag a * mag b)

unfoldable pub neg : ℤ → ℤ
neg (pos zero) = pos 0
neg (pos (suc n)) = negsuc n
neg (negsuc n) = pos (suc n)

-- `Quo`, `Rem` and `Mod` at a divisor that is not zero.
unfoldable pub quo : ℤ → ℤ → ℤ
quo a b = signed (differ (is_neg a) (is_neg b)) (mag a / mag b)

unfoldable pub rem : ℤ → ℤ → ℤ
rem a b = signed (is_neg a) (mag a % mag b)

unfoldable pub mod_euclid : ℤ → ℤ → ℤ
mod_euclid (pos n) b = pos (n % mag b)
mod_euclid (negsuc n) b = let r = suc n % mag b in if r == 0 then pos 0 else pos (mag b - r)

abbrev pub ◌≤ℤ◌ : ℤ → ℤ → Type 0
a ≤ℤ b = pos_part a + neg_part b ≤ pos_part b + neg_part a

abbrev pub ◌<ℤ◌ : ℤ → ℤ → Type 0
a <ℤ b = pos_part a + neg_part b < pos_part b + neg_part a

-- `Cmp(…) < 0`, `<= 0` and `== 0`.
abbrev pub ltb_ℤ : ℤ → ℤ → Bool
ltb_ℤ a b = ltb (pos_part a + neg_part b) (pos_part b + neg_part a)

abbrev pub leb_ℤ : ℤ → ℤ → Bool
leb_ℤ a b = leb (pos_part a + neg_part b) (pos_part b + neg_part a)

abbrev pub eqb_ℤ : ℤ → ℤ → Bool
eqb_ℤ a b = pos_part a + neg_part b == pos_part b + neg_part a

pub +ℤ_parts :
    (a b : ℤ)
    → pos_part (a +ℤ b) + neg_part a + neg_part b ≡ neg_part (a +ℤ b) + pos_part a + pos_part b
unfolding ◌+ℤ◌
+ℤ_parts a b = ground arith

pub -ℤ_parts :
    (a b : ℤ)
    → pos_part (a -ℤ b) + neg_part a + pos_part b ≡ neg_part (a -ℤ b) + pos_part a + neg_part b
unfolding ◌-ℤ◌
-ℤ_parts a b = ground arith

pub neg_parts : (a : ℤ) → pos_part (neg a) + pos_part a ≡ neg_part (neg a) + neg_part a
unfolding neg
neg_parts (pos zero) = refl
neg_parts (pos (suc n)) = omega arith
neg_parts (negsuc n) = omega arith

pub eq_of_parts : (a b : ℤ) → pos_part a + neg_part b ≡ pos_part b + neg_part a → a ≡ b
eq_of_parts a b h = ground arith

pub ruleset int_laws = (arith, +ℤ_parts, -ℤ_parts, neg_parts, eq_of_parts)

pub +ℤ_comm : (a b : ℤ) → a +ℤ b ≡ b +ℤ a
+ℤ_comm a b = omega int_laws

pub +ℤ_assoc : (a b c : ℤ) → a +ℤ b +ℤ c ≡ a +ℤ (b +ℤ c)
+ℤ_assoc a b c = omega int_laws

pub neg-neg : (a : ℤ) → neg (neg a) ≡ a
neg-neg a = omega int_laws

pub mag-neg : (a : ℤ) → mag (neg a) ≡ mag a
unfolding neg
mag-neg (pos zero) = refl
mag-neg (pos (suc n)) = refl
mag-neg (negsuc n) = refl

pub mag-signed : (s : Bool) (n : ℕ) → mag (signed s n) ≡ n
mag-signed true zero = refl
mag-signed true (suc n) = refl
mag-signed false n = refl

pub signed-mag : (a : ℤ) → signed (is_neg a) (mag a) ≡ a
signed-mag (pos n) = refl
signed-mag (negsuc n) = refl

pub neg-signed : (s : Bool) (n : ℕ) → neg (signed s n) ≡ signed (if s then false else true) n
unfolding neg
neg-signed true zero = refl
neg-signed true (suc n) = refl
neg-signed false zero = refl
neg-signed false (suc n) = refl

pub mag-* : (a b : ℤ) → mag (a *ℤ b) ≡ mag a * mag b
unfolding ◌*ℤ◌
mag-* a b = mag-signed _ _

pub *ℤ_comm : (a b : ℤ) → a *ℤ b ≡ b *ℤ a
unfolding ◌*ℤ◌
*ℤ_comm a b = ground arith

pub eqb_ℤ_iff : (a b : ℤ) → eqb_ℤ a b ≡ true → a ≡ b
eqb_ℤ_iff a b h = ground arith

pub differ_self : (s : Bool) → differ s s ≡ false
differ_self true = refl
differ_self false = refl

differ_not : (s : Bool) → differ (if s then false else true) s ≡ true
differ_not true = refl
differ_not false = refl

pub signed_parts : (n : ℕ) → (pos_part (signed true n) ≡ 0) × (neg_part (signed true n) ≡ n)
signed_parts zero = (refl, refl)
signed_parts (suc n) = (refl, refl)

pub signed-* :
    (s : Bool) (n : ℕ) (b : ℤ) → signed s n *ℤ b ≡ signed (differ s (is_neg b)) (n * mag b)
unfolding ◌*ℤ◌
signed-* true zero (pos m) = ground arith
signed-* true zero (negsuc m) = ground arith
signed-* true (suc n) b = refl
signed-* false n b = refl

-- The Euclidean remainder is below the divisor, and the division has no other rest.
pub mod_euclid_lem :
    (i b : ℤ)
    → 0 < mag b
    → (r : ℕ) × (mod_euclid i b ≡ pos r) × (r < mag b) × ((k : ℤ) × (i ≡ k *ℤ b +ℤ pos r))
unfolding mod_euclid
mod_euclid_lem (pos n) b h = (
  n % mag b,
  refl,
  mod-lt n h,
  (
    signed (is_neg b) (n / mag b),
    rw (signed-*, differ_self) (eq_of_parts _ _ (omega (int_laws, div-add-mod' n (mag b)))),
  ),
)
mod_euclid_lem (negsuc n) b h = elim (Bool-cases (suc n % mag b == 0)) [
  | inl z ↦ (
    0,
    rw z,
    h,
    (
      signed (if is_neg b then false else true) (suc n / mag b),
      rw (signed-*, differ_not)
          (eq_of_parts _ _ (
            omega (
              int_laws,
              (==_iff _ _).0 z,
              div-add-mod' (suc n) (mag b),
              signed_parts (suc n / mag b * mag b),
            ))),
    ),
  )
  | inr z ↦ (
    mag b - suc n % mag b,
    rw z,
    ground arith,
    (
      signed (if is_neg b then false else true) (suc n / mag b + 1),
      rw (signed-*, differ_not)
          (eq_of_parts _ _ (
            omega (
              int_laws,
              mod-lt (suc n) h,
              div-add-mod' (suc n) (mag b),
              signed_parts ((suc n / mag b + 1) * mag b),
            ))),
    ),
  )
]

pub neg_pos : (n : ℕ) → neg (pos n) ≡ signed true n
neg_pos n = neg-signed false n

pub neg_negsuc : (n : ℕ) → neg (negsuc n) ≡ pos (suc n)
unfolding neg
neg_negsuc n = refl

signed_zero : (s : Bool) → signed s 0 ≡ pos 0
signed_zero true = refl
signed_zero false = refl

pub quo-signed :
    (s : Bool) (n : ℕ) (b : ℤ) → quo (signed s n) b ≡ signed (differ s (is_neg b)) (n / mag b)
unfolding quo
quo-signed false n b = refl
quo-signed true (suc n) b = refl
quo-signed true zero b = rw zero-div (signed_zero _ ∙ sym (signed_zero _))

pub differ-false : (s : Bool) → differ s false ≡ s
differ-false true = refl
differ-false false = refl

-- Two signs make one: the product of an integer with a natural number.
pub *ℤ_pos : (a : ℤ) (n : ℕ) → a *ℤ pos n ≡ signed (is_neg a) (mag a * n)
unfolding ◌*ℤ◌
*ℤ_pos a n = rw differ-false

pub *ℤ-signed :
    (a : ℤ) (s : Bool) (n : ℕ) → a *ℤ signed s n ≡ signed (differ (is_neg a) s) (mag a * n)
unfolding ◌*ℤ◌
*ℤ-signed a false n = refl
*ℤ-signed a true zero = rw mul-zero (signed_zero _ ∙ sym (signed_zero (differ (is_neg a) true)))
*ℤ-signed a true (suc n) = refl

pub signed-*_pos : (s : Bool) (n m : ℕ) → signed s n *ℤ pos m ≡ signed s (n * m)
signed-*_pos s n m = rw (signed-*, differ-false)
