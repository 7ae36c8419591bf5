-- ===== src/Coin/Validate.antt =====
-- `Coins.Validate`: what it accepts, which errors it gives, and how it differs from `IsValid`.
use Prim.Native.Nat.{Ordering}
use plugchain_sdk_go.Prelude.{
  ◌≡◌, ◌↔◌, refl, true, false, ◌⊎◌, List, [], ◌∷◌, All, ok, err, err_if-passed, err_if-not-passed,
  and-true, and-false, inl, inr, invalid_denom, not_positive, duplicate_denom, not_sorted,
}
use plugchain_sdk_go.Denom.{
  Denom, compare_denom, denom_eq, denom_lt, matches_denom, validate_denom, to_lower,
}
use plugchain_sdk_go.Denom.Order.{compare_denom_trans, compare_denom_self, eq_of_compare_denom}
use plugchain_sdk_go.CoinSet.{Coin, is_positive, is_valid}
use plugchain_sdk_go.CoinSet.Sorted.{Below, IsSorted, Below-trans}
use plugchain_sdk_go.CoinSet.Valid.{AllPositive, is_valid_tail_sound, lt_of_denom_lt}
use plugchain_sdk_go.Coin.{Coins, validate_loop, validate_coins, seen}

abbrev pub AllMatch : Coins → Type 0
AllMatch = All (λ c. matches_denom c.denom ≡ true)

-- The denominations seen so far are at most the last.
abbrev UpTo : Denom → List Denom → Type 0
UpTo low = All (λ e. (compare_denom e low ≡ Ordering.lt) ⊎ (compare_denom e low ≡ Ordering.eq))

up_to_lt :
    (e low d : Denom)
    → (compare_denom e low ≡ Ordering.lt) ⊎ (compare_denom e low ≡ Ordering.eq)
    → compare_denom low d ≡ Ordering.lt
    → compare_denom e d ≡ Ordering.lt
up_to_lt e low d (inl p) o = compare_denom_trans e low d p o
up_to_lt e low d (inr p) o = rw (eq_of_compare_denom e low p) o

UpTo-next :
    (low d : Denom) (es : List Denom) → compare_denom low d ≡ Ordering.lt → UpTo low es → UpTo d es
UpTo-next low d [] o h = tt
UpTo-next low d (e ∷ es) o (p, h) = (inl (up_to_lt e low d p o), UpTo-next low d es o h)

-- A denomination above the last one was not seen.
not_seen :
    (d low : Denom) (es : List Denom)
    → compare_denom low d ≡ Ordering.lt
    → UpTo low es
    → seen d es ≡ false
not_seen d low [] o h = refl
not_seen d low (e ∷ es) o (p, h) = rw (up_to_lt e low d p o) (not_seen d low es o h)

validate_loop_complete :
    (low : Denom) (es : List Denom) (cs : Coins)
    → UpTo low es
    → Below low cs
    → IsSorted cs
    → AllPositive cs
    → AllMatch cs
    → validate_loop low es cs ≡ ok tt
unfolding validate_loop validate_denom
validate_loop_complete low es [] u b s p m = refl
validate_loop_complete low es (c ∷ cs) u (o, _) (b, s) (p, ps) (m, ms) =
    rw (not_seen c.denom low es o u, m, o, p)
      (validate_loop_complete c.denom (c.denom ∷ es) cs
        (inr (compare_denom_self c.denom), UpTo-next low c.denom es o u) b s ps ms)

validate_loop_sound :
    (low : Denom) (es : List Denom) (cs : Coins)
    → validate_loop low es cs ≡ ok tt
    → Below low cs × IsSorted cs × AllPositive cs × AllMatch cs
unfolding validate_loop validate_denom
validate_loop_sound low es [] h = (tt, tt, tt, tt)
validate_loop_sound low es (c ∷ cs) h =
    let (_, h1) = err_if-passed (seen c.denom es) duplicate_denom _ h in
    let (m, h2) = err_if-not-passed (matches_denom c.denom) invalid_denom _ h1 in
    let (above, h3) = err_if-not-passed (denom_lt low c.denom) not_sorted _ h2 in
    let (p, h4) = err_if-not-passed (is_positive c) not_positive _ h3 in
    let (b, s, ps, ms) = validate_loop_sound c.denom (c.denom ∷ es) cs h4 in
    let o = lt_of_denom_lt low c.denom above in
    ((o, Below-trans low c.denom cs o b), (b, s), (p, ps), (m, ms))

-- `Validate` returns nil for exactly the sets whose denominations match the pattern and strictly
-- increase, and whose amounts are positive.
pub validate_coins_iff :
    (cs : Coins) → (validate_coins cs ≡ ok tt) ↔ (IsSorted cs × AllPositive cs × AllMatch cs)
unfolding validate_coins validate_denom
validate_coins_iff [] = (λ _. (tt, tt, tt), λ _. refl)
validate_coins_iff (c ∷ cs) = (
  λ h.
      let (m, h1) = err_if-not-passed (matches_denom c.denom) invalid_denom _ h in
      let (p, h2) = err_if-not-passed (is_positive c) not_positive _ h1 in
      let (b, s, ps, ms) = validate_loop_sound c.denom (c.denom ∷ []) cs h2 in
      ((b, s), (p, ps), (m, ms)),
  λ ((b, s), (p, ps), (m, ms)).
      rw (m, p)
        (validate_loop_complete c.denom (c.denom ∷ []) cs (inr (compare_denom_self c.denom), tt) b s
          ps ms),
)

-- IsValid refuses a set whose second denomination is not in lower case.
pub is_valid_refuses_upper_case :
    (c d : Coin) (cs : Coins)
    → denom_eq (to_lower d.denom) d.denom ≡ false
    → is_valid (c ∷ d ∷ cs) ≡ false
unfolding is_valid
is_valid_refuses_upper_case c d cs h = rw (h, and-false)

-- A set of two coins that IsValid accepts is refused by Validate where its second denomination
-- does not match the pattern.
pub validate_coins_refuses_pattern :
    (c d : Coin)
    → is_valid (c ∷ d ∷ []) ≡ true
    → matches_denom d.denom ≡ false
    → validate_coins (c ∷ d ∷ []) ≡ err invalid_denom
unfolding validate_coins validate_loop validate_denom is_valid
validate_coins_refuses_pattern c d h m =
    let (first, rest) = and-true _ _ h in
    let (mc, pc) = and-true (matches_denom c.denom) (is_positive c) first in
    let ((o, _), _, _) = is_valid_tail_sound c.denom (d ∷ []) rest in rw (mc, pc, o, m)
