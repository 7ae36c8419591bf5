-- ===== src/Prelude/Text.antt =====
-- Strings as lists of bytes: decimal numerals of `strconv` and `math/big`, and `strings.Split`.
use Prim.Native.Nat.{ℕ, zero, suc, ◌+◌, ◌-◌, ◌*◌, ◌/◌, ◌%◌, ◌≤◌, ◌<◌}
use mathlib.Core.Path.{◌≡◌, refl}
use mathlib.Core.Logic.{inl, inr}
use mathlib.Core.Bool.{true, false, ◌&&◌}
use mathlib.Core.Option.{Option, none, some}
use mathlib.Core.List.{List, [], ◌∷◌, ◌++◌}
use native.Mathlib.Omega.{arith}
use plugchain_sdk_go.Prelude.Tests.{ltb, leb, ◌==◌, if◌then◌else◌, Bool-cases}
use plugchain_sdk_go.Prelude.Lists.{All}

-- The number that digits spell behind `n`, if they are digits.
abbrev pub digits_from : ℕ → List ℕ → Option ℕ
digits_from n [] = some n
digits_from n (c ∷ cs) =
    if leb b'0' c && leb c b'9' then digits_from (n * 10 + (c - b'0')) cs else none

abbrev pub digits : List ℕ → Option ℕ
digits [] = none
digits (c ∷ cs) = digits_from 0 (c ∷ cs)

-- The decimal numeral of `n` before `out`: each round divides by ten, so `n` rounds are enough.
pub print_loop : ℕ → ℕ → List ℕ → List ℕ
print_loop zero n out = out
print_loop (suc fuel) n out =
    let longer = (b'0' + n % 10) ∷ out in
    let rest = print_loop fuel (n / 10) longer in if ltb n 10 then longer else rest

-- `%d`, `FormatUint` and `big.Int.String`
unfoldable pub print : ℕ → List ℕ
unfolding print_loop
print n = print_loop (suc n) n []

-- `strings.Split(s, sep)` for one byte, with the first part beside the others.
abbrev pub split_on : ℕ → List ℕ → List ℕ × List (List ℕ)
split_on sep [] = ([], [])
split_on sep (c ∷ cs) =
    let (part, parts) = split_on sep cs in
    if c == sep then ([], part ∷ parts) else (c ∷ part, parts)

abbrev pub IsDigit : ℕ → Type 0
IsDigit c = (b'0' ≤ c) × (c ≤ b'9')

digits_from-print_loop :
    (fuel n : ℕ) (out : List ℕ)
    → n < fuel
    → digits_from 0 (print_loop fuel n out) ≡ digits_from n out
unfolding print_loop
digits_from-print_loop zero n out h = absurd (omega arith)
digits_from-print_loop (suc fuel) n out h = elim (Bool-cases (ltb n 10)) [
  | inl s ↦ rw s (ground arith)
  | inr s ↦
      let m : n / 10 < fuel = ground arith in
      let back : n / 10 * 10 + (b'0' + n % 10 - b'0') ≡ n = omega arith in
      rw (s, digits_from-print_loop fuel (n / 10) ((b'0' + n % 10) ∷ out) m) (ground arith)
]

print_loop-IsDigit :
    (fuel n : ℕ) (out : List ℕ) → All IsDigit out → All IsDigit (print_loop fuel n out)
unfolding print_loop
print_loop-IsDigit zero n out h = h
print_loop-IsDigit (suc fuel) n out h = elim (Bool-cases (ltb n 10)) [
  | inl s ↦ rw s (omega arith, h)
  | inr s ↦ rw s (print_loop-IsDigit fuel (n / 10) ((b'0' + n % 10) ∷ out) (omega arith, h))
]

-- The digits before `out`, of which there is one at least.
pub print_loop-cons :
    (fuel n : ℕ) (out : List ℕ) → (c : ℕ) × (cs : List ℕ) × (print_loop (suc fuel) n out ≡ c ∷ cs)
unfolding print_loop
print_loop-cons zero n out = elim (Bool-cases (ltb n 10)) [
  | inl s ↦ (b'0' + n % 10, out, rw s)
  | inr s ↦ (b'0' + n % 10, out, rw s)
]
print_loop-cons (suc fuel) n out = elim (Bool-cases (ltb n 10)) [
  | inl s ↦ (b'0' + n % 10, out, rw s)
  | inr s ↦
      let (c, cs, e) = print_loop-cons fuel (n / 10) ((b'0' + n % 10) ∷ out) in (c, cs, rw s e)
]

pub print-cons : (n : ℕ) → (c : ℕ) × (cs : List ℕ) × (print n ≡ c ∷ cs)
unfolding print
print-cons n = print_loop-cons n n []

pub print-IsDigit : (n : ℕ) → All IsDigit (print n)
unfolding print
print-IsDigit n = print_loop-IsDigit (suc n) n [] tt

-- Every number is read back from its numeral.
pub digits-print : (n : ℕ) → digits (print n) ≡ some n
digits-print n =
    let (c, cs, e) = print-cons n in
    let whole : digits_from 0 (print n) ≡ some n =
      unfold print in digits_from-print_loop (suc n) n [] (omega arith) in
    rw e (rw e at whole)

pub split_on-none :
    (sep : ℕ) (s : List ℕ) → All (λ c. (c == sep) ≡ false) s → split_on sep s ≡ (s, [])
split_on-none sep [] h = refl
split_on-none sep (c ∷ s) (p, h) = rw (p, split_on-none sep s h)

pub split_on-append :
    (sep : ℕ) (s rest : List ℕ)
    → All (λ c. (c == sep) ≡ false) s
    → split_on sep (s ++ sep ∷ rest) ≡ (s, (split_on sep rest).0 ∷ (split_on sep rest).1)
split_on-append sep [] rest h = let e : (sep == sep) ≡ true = ground arith in rw e
split_on-append sep (c ∷ s) rest (p, h) = rw (p, split_on-append sep s rest h)

-- The numeral of a positive number starts with no zero.
print_loop-head :
    (fuel n : ℕ) (out : List ℕ)
    → 0 < n
    → n < fuel
    → (c : ℕ) × (cs : List ℕ) × (print_loop fuel n out ≡ c ∷ cs) × ((c == b'0') ≡ false)
unfolding print_loop
print_loop-head zero n out h enough = absurd (omega arith)
print_loop-head (suc fuel) n out h enough = elim (Bool-cases (ltb n 10)) [
  | inl t ↦ (b'0' + n % 10, out, rw t, ground arith)
  | inr t ↦
      let (c, cs, e, apart) =
        print_loop-head fuel (n / 10) ((b'0' + n % 10) ∷ out) (ground arith) (ground arith) in
      (c, cs, rw t e, apart)
]

pub print-head :
    (n : ℕ) → 0 < n → (c : ℕ) × (cs : List ℕ) × (print n ≡ c ∷ cs) × ((c == b'0') ≡ false)
unfolding print
print-head n h = print_loop-head (suc n) n [] h (omega arith)
