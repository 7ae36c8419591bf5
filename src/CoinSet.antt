-- ===== src/CoinSet.antt =====
-- What types/coin.go and types/dec_coin.go do alike for `Coins` and `DecCoins`: the two files hold
-- the same code over two number types. A coin's amount is its integer (scaled for `DecCoin`), and
-- the checked addition of the amounts, the one difference, is a parameter.
pub mod Total
pub mod Zeros
pub mod Sorted
pub mod Merge
pub mod Kept
pub mod Sort
pub mod Valid
pub mod Find
pub mod Canonical
use Prim.Native.Nat.{Ordering}
use plugchain_sdk_go.Prelude.{
  ℕ, zero, suc, ◌+◌, ◌-◌, ◌/◌, ◌≤◌, ◌<◌, ◌≡◌, refl, Bool, true, false, not, ◌&&◌, ◌||◌, ltb, leb,
  ◌==◌, if◌then◌else◌, List, [], ◌∷◌, ◌++◌, map, length, take, drop, get_elem?, Option, none, some,
  Result, ok, err, panic, ◌>>=◌, ◌>>◌, panic_if, err_if, denom_mismatch, negative_coin_amount,
  duplicate_coin, invalid_coins,
}
use plugchain_sdk_go.Prelude.Integer.{ℤ, pos, negsuc, mag, is_neg, ltb_ℤ, eqb_ℤ}
use plugchain_sdk_go.Denom.{
  Denom, compare_denom, denom_lt, denom_eq, to_lower, matches_denom, must_validate_denom, is_lt,
}

pub record Coin : Type 0 where
  pub denom : Denom
  pub amount : ℤ

-- The tests on the sign of the amount.
abbrev pub is_zero : Coin → Bool
is_zero c = mag c.amount == 0

abbrev pub is_negative : Coin → Bool
is_negative c = is_neg c.amount

abbrev pub is_positive : Coin → Bool
is_positive c = ltb_ℤ (pos 0) c.amount

-- `for … { if !p(coin) { return false } }; return true`
abbrev pub all_coins : (Coin → Bool) → List Coin → Bool
all_coins p [] = true
all_coins p (c ∷ cs) = p c && all_coins p cs

-- `coins = append(coins[:i], coins[i+1:]...)`, where the slice has `l` elements: those behind
-- index `i` move down by one in the array that backs the slice, and its last cell stays.
abbrev pub delete_at : List Coin → ℕ → ℕ → List Coin
delete_at array i l =
    take i array ++ (take (l - (i + 1)) (drop (i + 1) array) ++ drop (l - 1) array)

-- The loop of `removeZeroCoins`, for `left = l - i` more rounds: the array and `i` at the end.
unfoldable pub remove_zero_loop : ℕ → List Coin → ℕ → List Coin × ℕ
remove_zero_loop zero array i = (array, i)
remove_zero_loop (suc left) array i = elim (get_elem? array i) [
  | none ↦ (array, i)
  | some c ↦ elim (is_zero c) [
    | true ↦ remove_zero_loop left (delete_at array i (i + suc left)) i
    | false ↦ remove_zero_loop left array (i + 1)
  ]
]

-- What the caller's array holds after the call.
unfoldable pub backing_after_remove : List Coin → List Coin
unfolding remove_zero_loop
backing_after_remove coins = (remove_zero_loop (length coins) coins 0).0

-- The slice that is returned, `coins[:i]`.
unfoldable pub remove_zero_coins : List Coin → List Coin
unfolding remove_zero_loop
remove_zero_coins coins = let (array, i) = remove_zero_loop (length coins) coins 0 in take i array

-- `if !c.IsZero() { sum = append(sum, c) }`
abbrev pub append_unless_zero : List Coin → Coin → List Coin
append_unless_zero sum c = if is_zero c then sum else sum ++ c ∷ []

module _ (add_amount : ℤ → ℤ → Result ℤ) where
  -- `coin.Add(coinB)`
  unfoldable pub add_coin : Coin → Coin → Result Coin
  add_coin a b = do
    panic_if (not (denom_eq a.denom b.denom)) denom_mismatch
    res ← add_amount a.amount b.amount
    ok (record { denom = a.denom; amount = res })

  -- The loop of `safeAdd`: `sum` and the two slices from `indexA` and `indexB` on.
  unfoldable pub safe_add_loop : List Coin → List Coin → List Coin → Result (List Coin)
  safe_add_loop [] [] sum = ok sum
  safe_add_loop [] (b ∷ ys) sum = ok (sum ++ remove_zero_coins (b ∷ ys))
  safe_add_loop (a ∷ xs) [] sum = ok (sum ++ remove_zero_coins (a ∷ xs))
  safe_add_loop (a ∷ xs) (b ∷ ys) sum = elim (compare_denom a.denom b.denom) [
    | Ordering.lt ↦ safe_add_loop xs (b ∷ ys) (append_unless_zero sum a)
    | Ordering.eq ↦ add_coin a b >>= λ res. safe_add_loop xs ys (append_unless_zero sum res)
    | Ordering.gt ↦ safe_add_loop (a ∷ xs) ys (append_unless_zero sum b)
  ]

  unfoldable pub safe_add : List Coin → List Coin → Result (List Coin)
  unfolding safe_add_loop
  safe_add coins coins_b = safe_add_loop coins coins_b []

-- The loop of `IsValid` over the coins behind the first.
abbrev pub is_valid_tail : Denom → List Coin → Bool
is_valid_tail low [] = true
is_valid_tail low (c ∷ cs) =
    denom_eq (to_lower c.denom) c.denom
    && denom_lt low c.denom
    && is_positive c
    && is_valid_tail c.denom cs

unfoldable pub is_valid : List Coin → Bool
is_valid [] = true
is_valid (c ∷ []) = matches_denom c.denom && is_positive c
is_valid (c ∷ d ∷ cs) = (matches_denom c.denom && is_positive c) && is_valid_tail c.denom (d ∷ cs)

-- `AmountOf`: a binary search. The first argument bounds the rounds; the length is enough.
unfoldable pub amount_of_rounds : ℕ → List Coin → Denom → Result ℤ
amount_of_rounds zero coins denom = must_validate_denom denom >> ok (pos 0)
amount_of_rounds (suc n) [] denom = must_validate_denom denom >> ok (pos 0)
amount_of_rounds (suc n) (c ∷ []) denom = do
  must_validate_denom denom
  ok (if denom_eq c.denom denom then c.amount else pos 0)
amount_of_rounds (suc n) (c ∷ d ∷ cs) denom =
    let coins = c ∷ d ∷ cs in
    let mid_idx = length coins / 2 in
    must_validate_denom denom >> elim (get_elem? coins mid_idx) [
      | none ↦ ok (pos 0)
      | some coin ↦ elim (compare_denom denom coin.denom) [
        | Ordering.lt ↦ amount_of_rounds n (take mid_idx coins) denom
        | Ordering.eq ↦ ok coin.amount
        | Ordering.gt ↦ amount_of_rounds n (drop (mid_idx + 1) coins) denom
      ]
    ]

unfoldable pub amount_of : List Coin → Denom → Result ℤ
unfolding amount_of_rounds
amount_of coins denom = amount_of_rounds (length coins) coins denom

-- `sort.Sort` by `Less`, as an insertion sort; the order of equal denominations is not promised.
abbrev pub insert_coin : Coin → List Coin → List Coin
insert_coin c [] = c ∷ []
insert_coin c (d ∷ ds) = if denom_lt d.denom c.denom then d ∷ insert_coin c ds else c ∷ d ∷ ds

unfoldable pub sort : List Coin → List Coin
sort [] = []
sort (c ∷ cs) = insert_coin c (sort cs)

-- The loop of `findDup` from index `i` on, with `prevDenom`.
abbrev pub find_dup_loop : ℕ → Denom → List Coin → Option ℕ
find_dup_loop i prev [] = none
find_dup_loop i prev (c ∷ cs) =
    if denom_eq c.denom prev then some i else find_dup_loop (i + 1) c.denom cs

-- `findDup`; `none` stands for -1.
unfoldable pub find_dup : List Coin → Option ℕ
find_dup [] = none
find_dup (c ∷ cs) = find_dup_loop 1 c.denom cs

-- `NewCoins` and `NewDecCoins`.
unfoldable pub new_coins : List Coin → Result (List Coin)
new_coins coins =
    let kept = remove_zero_coins coins in
    if length kept == 0
    then ok []
    else (let sorted = sort kept in
        elim (find_dup sorted) [
          | some i ↦ panic duplicate_coin
          | none ↦ panic_if (not (is_valid sorted)) invalid_coins >> ok sorted
        ])

-- The loop of `IsEqual` over two slices of one length.
abbrev pub equal_coins : List Coin → List Coin → Result Bool
equal_coins (a ∷ xs) (b ∷ ys) =
    panic_if (not (denom_eq a.denom b.denom)) denom_mismatch
    >> (if not (eqb_ℤ a.amount b.amount) then ok false else equal_coins xs ys)
equal_coins _ _ = ok true

unfoldable pub is_equal : List Coin → List Coin → Result Bool
unfolding sort
is_equal coins coins_b =
    if not (length coins == length coins_b)
    then ok false
    else equal_coins (sort coins) (sort coins_b)
