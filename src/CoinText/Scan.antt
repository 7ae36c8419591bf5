-- ===== src/CoinText/Scan.antt =====
-- What the trimming and the scanning of types/coin.go and types/dec_coin.go do to strings without white
-- space.
use plugchain_sdk_go.Prelude.{
  ℕ, ◌≡◌, refl, arith, Bool, true, false, ◌&&◌, and-true, leb, ◌==◌, List, [], ◌∷◌, ◌++◌, length,
  All, All-append,
}
use mathlib.Core.List.{reverse, reverse-reverse, reverse-append}
use plugchain_sdk_go.Prelude.Text.{IsDigit}
use plugchain_sdk_go.Denom.{Denom, matches_denom, is_letter, is_denom_byte, all_denom_bytes}
use plugchain_sdk_go.CoinType.{is_space, trim_left, trim_space}
use plugchain_sdk_go.CoinText.{span, is_digit}

-- A byte that stands in no separator.
abbrev pub IsSolid : ℕ → Type 0
IsSolid c = (is_space c ≡ false) × ((c == b',') ≡ false)

digit-IsSolid : (c : ℕ) → IsDigit c → IsSolid c
digit-IsSolid c h = ground arith

pub digits-IsSolid : (s : List ℕ) → All IsDigit s → All IsSolid s
digits-IsSolid [] h = tt
digits-IsSolid (c ∷ s) (p, h) = (digit-IsSolid c p, digits-IsSolid s h)

letter-IsSolid : (c : ℕ) → is_letter c ≡ true → IsSolid c
letter-IsSolid c h = ground arith

denom_byte-IsSolid : (c : ℕ) → is_denom_byte c ≡ true → IsSolid c
denom_byte-IsSolid c h = ground arith

denom_bytes-IsSolid : (s : List ℕ) → all_denom_bytes s ≡ true → All IsSolid s
denom_bytes-IsSolid [] h = tt
denom_bytes-IsSolid (c ∷ s) h =
    let (p, rest) = and-true (is_denom_byte c) (all_denom_bytes s) h in
    (denom_byte-IsSolid c p, denom_bytes-IsSolid s rest)

-- A denomination that matches the pattern starts with a letter and has no separators.
pub matches_denom-IsSolid :
    (d : Denom)
    → matches_denom d ≡ true
    → (c : ℕ) × (cs : List ℕ) × (d ≡ c ∷ cs) × (is_letter c ≡ true) × All IsSolid d
unfolding matches_denom
matches_denom-IsSolid [] h = cc
matches_denom-IsSolid (c ∷ cs) h =
    let (h1, _) = and-true (is_letter c && all_denom_bytes cs && leb 2 (length cs)) _ h in
    let (h2, _) = and-true (is_letter c && all_denom_bytes cs) _ h1 in
    let (first, rest) = and-true (is_letter c) (all_denom_bytes cs) h2 in
    (c, cs, refl, first, (letter-IsSolid c first, denom_bytes-IsSolid cs rest))

-- A byte that is not white space.
abbrev pub IsVisible : ℕ → Type 0
IsVisible c = is_space c ≡ false

pub IsVisible-of_IsSolid : (s : List ℕ) → All IsSolid s → All IsVisible s
IsVisible-of_IsSolid [] h = tt
IsVisible-of_IsSolid (c ∷ s) (p, h) = (p.0, IsVisible-of_IsSolid s h)

pub trim_left-IsVisible : (s : List ℕ) → All IsVisible s → trim_left s ≡ s
trim_left-IsVisible [] h = refl
trim_left-IsVisible (c ∷ s) (p, h) = rw p refl

All-reverse : (s : List ℕ) → All IsVisible s → All IsVisible (reverse s)
All-reverse [] h = tt
All-reverse (c ∷ s) (p, h) =
    let e : reverse (c ∷ s) ≡ reverse s ++ c ∷ [] = reverse-append (c ∷ []) s in
    rw e (All-append _ (reverse s) (c ∷ []) (All-reverse s h) (p, tt))

pub trim_space-IsVisible : (s : List ℕ) → All IsVisible s → trim_space s ≡ s
unfolding trim_space
trim_space-IsVisible s h =
    rw (trim_left-IsVisible s h, trim_left-IsVisible (reverse s) (All-reverse s h))
      (reverse-reverse s)

pub no_comma : (s : List ℕ) → All IsSolid s → All (λ c. (c == b',') ≡ false) s
no_comma [] h = tt
no_comma (c ∷ s) (p, h) = (p.1, no_comma s h)

-- A scan stops at the first byte that fails its test.
pub span-append :
    (p : ℕ → Bool) (xs : List ℕ) (y : ℕ) (ys : List ℕ)
    → All (λ c. p c ≡ true) xs
    → p y ≡ false
    → span p (xs ++ y ∷ ys) ≡ (xs, y ∷ ys)
span-append p [] y ys h e = rw e
span-append p (x ∷ xs) y ys (px, h) e = rw (px, span-append p xs y ys h e)

pub digits_pass : (s : List ℕ) → All IsDigit s → All (λ c. is_digit c ≡ true) s
digits_pass [] h = tt
digits_pass (c ∷ s) (p, h) = ((ground arith), digits_pass s h)

pub letter_fails : (c : ℕ) → is_letter c ≡ true → is_digit c ≡ false
letter_fails c h = ground arith
