-- ===== src/CoinSet/Valid.antt =====
-- `IsValid`, `NewCoins` and `NewDecCoins`: what they accept, and what a constructed set holds.
use Prim.Native.Nat.{Ordering}
use plugchain_sdk_go.Prelude.{
  ℕ, ◌+◌, ◌≡◌, refl, sym, ◌∙◌, true, not, ◌⊎◌, arith, Bool-cases, and-true, panic_if-passed,
  >>=-eq-ok, Option-cases, inl, inr, List, [], ◌∷◌, length, All, none, ok, panic_if, ok-injective,
  ◌==◌, ==_iff, invalid_coins,
}
use plugchain_sdk_go.Prelude.Integer.{pos}
use plugchain_sdk_go.Denom.{Denom, compare_denom, denom_eq, denom_lt, to_lower, matches_denom}
use plugchain_sdk_go.Denom.Order.{compare_denom_flip}
use plugchain_sdk_go.CoinSet.{
  Coin, is_zero, is_positive, is_valid, is_valid_tail, sort, new_coins, find_dup, find_dup_loop,
  remove_zero_coins,
}
use plugchain_sdk_go.CoinSet.Zeros.{nonzero, remove_zero_coins_lem}
use plugchain_sdk_go.CoinSet.Total.{total, total-nonzero}
use plugchain_sdk_go.CoinSet.Sorted.{Below, IsSorted, Below-trans}
use plugchain_sdk_go.CoinSet.Sort.{
  IsDistinct, total-sort, All-sort, IsSorted-sort, IsDistinct-nonzero,
}

abbrev pub AllPositive : List Coin → Type 0
AllPositive = All (λ c. is_positive c ≡ true)

pub lt_of_denom_lt : (a b : Denom) → denom_lt a b ≡ true → compare_denom a b ≡ Ordering.lt
lt_of_denom_lt a b h = ground arith

pub is_valid_tail_sound :
    (low : Denom) (cs : List Coin)
    → is_valid_tail low cs ≡ true
    → Below low cs × IsSorted cs × AllPositive cs
is_valid_tail_sound low [] h = (tt, tt, tt)
is_valid_tail_sound low (c ∷ cs) h =
    let (h1, rest) = and-true _ (is_valid_tail c.denom cs) h in
    let (h2, positive) = and-true _ (is_positive c) h1 in
    let (_, above) = and-true _ (denom_lt low c.denom) h2 in
    let (b, s, p) = is_valid_tail_sound c.denom cs rest in
    let o = lt_of_denom_lt low c.denom above in
    ((o, Below-trans low c.denom cs o b), (b, s), (positive, p))

-- A set that `IsValid` accepts has strictly increasing denominations and positive amounts.
pub is_valid_sound : (cs : List Coin) → is_valid cs ≡ true → IsSorted cs × AllPositive cs
unfolding is_valid
is_valid_sound [] h = (tt, tt)
is_valid_sound (c ∷ []) h = ((tt, tt), ((and-true _ _ h).1, tt))
is_valid_sound (c ∷ d ∷ cs) h =
    let (first, rest) = and-true _ _ h in
    let (b, s, p) = is_valid_tail_sound c.denom (d ∷ cs) rest in
    ((b, s), ((and-true _ _ first).1, p))

-- A coin that `IsValid` accepts at every place of a set.
abbrev pub Proper : Coin → Type 0
Proper c =
    (matches_denom c.denom ≡ true)
    × (denom_eq (to_lower c.denom) c.denom ≡ true)
    × (is_positive c ≡ true)

is_valid_tail_complete :
    (low : Denom) (cs : List Coin)
    → Below low cs
    → IsSorted cs
    → All Proper cs
    → is_valid_tail low cs ≡ true
is_valid_tail_complete low [] b s h = refl
is_valid_tail_complete low (c ∷ cs) (p, _) (b, s) ((_, lower, positive), h) =
    rw (lower, p, positive, is_valid_tail_complete c.denom cs b s h)

-- Sorted sets of proper coins are accepted.
pub is_valid_complete : (cs : List Coin) → IsSorted cs → All Proper cs → is_valid cs ≡ true
unfolding is_valid
is_valid_complete [] s h = refl
is_valid_complete (c ∷ []) s ((m, _, p), _) = rw (m, p)
is_valid_complete (c ∷ d ∷ cs) (b, s) ((m, _, p), h) =
    rw (m, p) (is_valid_tail_complete c.denom (d ∷ cs) b s h)

nil_of_length : {A : Type 0} (xs : List A) → length xs ≡ 0 → xs ≡ []
nil_of_length [] e = refl
nil_of_length (x ∷ xs) e = absurd (omega arith)

total_of_nil : (d : Denom) (coins : List Coin) → length (nonzero coins) ≡ 0 → total d coins ≡ pos 0
total_of_nil d coins e = rw (← total-nonzero d coins, nil_of_length (nonzero coins) e)

-- A set that NewCoins or NewDecCoins returns is accepted by IsValid, sorted and positive, and
-- it holds of every denomination what the coins given hold together.
pub new_coins_sound :
    (coins r : List Coin)
    → new_coins coins ≡ ok r
    → (is_valid r ≡ true) × IsSorted r × AllPositive r × ((d : Denom) → total d r ≡ total d coins)
unfolding new_coins
new_coins_sound coins r h = elim (Bool-cases (length (remove_zero_coins coins) == 0)) [
  | inl z ↦
      let r_nil = sym (ok-injective (rw z at h)) in
      rw r_nil (
        unfold is_valid in refl,
        tt,
        tt,
        λ d. sym (total_of_nil d coins (rw remove_zero_coins_lem at ((==_iff _ _).0 z))),
      )
  | inr z ↦
      let h' = rw z at h in
      elim (Option-cases (find_dup (sort (remove_zero_coins coins)))) [
        | inl no_dup ↦
            let made = sort (remove_zero_coins coins) in
            let (_, passed, e) =
              >>=-eq-ok (panic_if (not (is_valid made)) invalid_coins) _ (rw no_dup at h') in
            let valid = panic_if-passed _ _ passed in
            let (s, p) = is_valid_sound made valid in
            rw (sym (ok-injective e)) (
              valid,
              s,
              p,
              λ d.
                  total-sort d (remove_zero_coins coins)
                  ∙ rw remove_zero_coins_lem (total-nonzero d coins),
            )
        | inr (i, dup) ↦ cc (rw dup at h')
      ]
]

find_dup_loop-none :
    (i : ℕ) (prev : Denom) (cs : List Coin)
    → Below prev cs
    → IsSorted cs
    → find_dup_loop i prev cs ≡ none
find_dup_loop-none i prev [] b s = refl
find_dup_loop-none i prev (c ∷ cs) (p, _) (b, s) =
    rw (compare_denom_flip prev c.denom, p) (find_dup_loop-none (i + 1) c.denom cs b s)

pub find_dup-none : (cs : List Coin) → IsSorted cs → find_dup cs ≡ none
unfolding find_dup
find_dup-none [] s = refl
find_dup-none (c ∷ cs) (b, s) = find_dup_loop-none 1 c.denom cs b s

-- A coin without an amount, or a proper one.
abbrev pub Acceptable : Coin → Type 0
Acceptable c = (is_zero c ≡ true) ⊎ Proper c

Proper-nonzero : (cs : List Coin) → All Acceptable cs → All Proper (nonzero cs)
Proper-nonzero [] h = tt
Proper-nonzero (c ∷ cs) (p, h) = elim (Bool-cases (is_zero c)) [
  | inl z ↦ rw z (Proper-nonzero cs h)
  | inr z ↦ rw z ((elim p [ inl z' ↦ cc (z, z') | inr q ↦ q ]), Proper-nonzero cs h)
]

-- NewCoins returns, for coins of distinct denominations, each proper or without an amount, the
-- sorted coins with an amount.
pub new_coins_complete :
    (coins : List Coin)
    → IsDistinct coins
    → All Acceptable coins
    → new_coins coins ≡ ok (sort (nonzero coins))
unfolding new_coins
new_coins_complete coins distinct h =
    let sorted = IsSorted-sort (nonzero coins) (IsDistinct-nonzero coins distinct) in
    let proper = All-sort Proper (nonzero coins) (Proper-nonzero coins h) in
    elim (Bool-cases (length (nonzero coins) == 0)) [
      | inl z ↦
          rw (remove_zero_coins_lem coins, z, nil_of_length (nonzero coins) ((==_iff _ _).0 z))
            (unfold sort in refl)
      | inr z ↦ rw (
        remove_zero_coins_lem coins,
        z,
        find_dup-none (sort (nonzero coins)) sorted,
        remove_zero_coins_lem coins,
        is_valid_complete (sort (nonzero coins)) sorted proper,
      )
    ]
