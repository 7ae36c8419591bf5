-- ===== src/Prelude/Tests.antt =====
-- Boolean tests on the native numbers, and the conditional.
use Prim.Native.Nat.{ℕ, ◌≤◌, ◌<◌, compare, Ordering}
use mathlib.Core.Path.{◌≡◌, refl}
use mathlib.Core.Logic.{◌≢◌, ◌↔◌, ◌⊎◌, inl, inr}
use mathlib.Core.Bool.{Bool, true, false, ◌&&◌, ◌||◌}
use mathlib.Core.Option.{Option, none, some}
use native.Mathlib.Omega.{arith}

abbrev pub ltb : ℕ → ℕ → Bool
ltb a b = elim (compare a b) [ Ordering.lt ↦ true | _ ↦ false ]

abbrev pub leb : ℕ → ℕ → Bool
leb a b = elim (compare a b) [ Ordering.gt ↦ false | _ ↦ true ]

infix 50 ◌==◌
abbrev pub ◌==◌ : ℕ → ℕ → Bool
a == b = elim (compare a b) [ Ordering.eq ↦ true | _ ↦ false ]

infix 1 if◌then◌else◌
abbrev pub if◌then◌else◌ {ℓ} : {A : Type ℓ} → Bool → A → A → A
if true then x else y = x
if false then x else y = y

pub ltb→lt : (a b : ℕ) → ltb a b ≡ true → a < b
ltb→lt a b h = ground arith

pub lt→ltb : (a b : ℕ) → a < b → ltb a b ≡ true
lt→ltb a b h = ground arith

pub le→not-ltb : (a b : ℕ) → b ≤ a → ltb a b ≡ false
le→not-ltb a b h = ground arith

pub not-ltb→le : (a b : ℕ) → ltb a b ≡ false → b ≤ a
not-ltb→le a b h = ground arith

pub ==_iff : (a b : ℕ) → ((a == b) ≡ true) ↔ (a ≡ b)
==_iff a b = ground arith

pub ruleset tests = (arith, ltb→lt, lt→ltb, le→not-ltb, not-ltb→le)

-- To split on a computed value and keep the equation.
pub Bool-cases : (b : Bool) → (b ≡ true) ⊎ (b ≡ false)
Bool-cases true = inl refl
Bool-cases false = inr refl

pub Option-cases {ℓ} : {A : Type ℓ} (o : Option A) → (o ≡ none) ⊎ ((a : A) × (o ≡ some a))
Option-cases none = inl refl
Option-cases (some a) = inr (a, refl)

pub and-true : (a b : Bool) → (a && b) ≡ true → (a ≡ true) × (b ≡ true)
and-true true b h = (refl, h)
and-true false b h = cc

pub and-false : (a : Bool) → (a && false) ≡ false
and-false true = refl
and-false false = refl

pub or-false : (a b : Bool) → (a || b) ≡ false → (a ≡ false) × (b ≡ false)
or-false true b h = cc
or-false false b h = (refl, h)

-- One of two results, by a test on a number: each with what the test found.
abbrev pub Split {ℓ κ} : Type 0 → Type ℓ → Type κ → Type (ℓ ⊔ κ)
Split P A B = (P × A) ⊎ ((¬ P) × B)

pub split_lt {ℓ κ} :
    {A : Type ℓ} {B : Type κ} (n m : ℕ) → (n < m → A) → (¬ (n < m) → B) → Split (n < m) A B
split_lt n m f g = elim (Bool-cases (ltb n m)) [
  | inl t ↦ inl (ltb→lt n m t, f (ltb→lt n m t))
  | inr t ↦ let away : ¬ (n < m) = (λ h. absurd (ground arith)) in inr (away, g away)
]

pub split_zero {ℓ κ} :
    {A : Type ℓ} {B : Type κ} (n : ℕ) → (n ≡ 0 → A) → (n ≢ 0 → B) → Split (n ≡ 0) A B
split_zero n f g = elim (Bool-cases (n == 0)) [
  | inl t ↦ inl ((==_iff n 0).0 t, f ((==_iff n 0).0 t))
  | inr t ↦ let away : n ≢ 0 = (λ h. absurd (ground arith)) in inr (away, g away)
]

pub split_in {ℓ κ} : {P : Type 0} {A : Type ℓ} {B : Type κ} → Split P A B → P → A
split_in (inl (p, a)) h = a
split_in (inr (away, b)) h = absurd (away h)

pub split_out {ℓ κ} : {P : Type 0} {A : Type ℓ} {B : Type κ} → Split P A B → ¬ P → B
split_out (inl (p, a)) away = absurd (away p)
split_out (inr (_, b)) away = b

-- The branch that a test has chosen.
pub if-true {ℓ} :
    {A : Type ℓ} (b : Bool) (x y : A) {z : A} → b ≡ true → (if b then x else y) ≡ z → x ≡ z
if-true true x y e h = h
if-true false x y e h = cc

pub if-false {ℓ} :
    {A : Type ℓ} (b : Bool) (x y : A) {z : A} → b ≡ false → (if b then x else y) ≡ z → y ≡ z
if-false true x y e h = cc
if-false false x y e h = h
