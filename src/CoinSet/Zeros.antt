-- ===== src/CoinSet/Zeros.antt =====
-- `removeZeroCoins` keeps the coins with an amount, in their order; its writes go to the array
-- that backs the caller's slice.
use mathlib.Core.Path.{subst}
use native.Mathlib.Numerals.{add-one}
use plugchain_sdk_go.Prelude.{
  ℕ, suc, ◌+◌, ◌-◌, ◌≡◌, refl, ap, ◌∙◌, true, false, arith, if◌then◌else◌, Bool-cases, inl, inr,
  List, [], ◌∷◌, ◌++◌, length, drop, get_elem?, some, append-nil, append_assoc, length-append,
  take-length-append,
}
use plugchain_sdk_go.CoinSet.{
  Coin, is_zero, delete_at, remove_zero_loop, remove_zero_coins, backing_after_remove,
}

-- The coins with an amount, in their order.
abbrev pub nonzero : List Coin → List Coin
nonzero [] = []
nonzero (c ∷ cs) = if is_zero c then nonzero cs else c ∷ nonzero cs

module _ {ℓ} {A : Type ℓ} where
  get_elem?-length :
      (done : List A) (x : A) (rest : List A) → get_elem? (done ++ x ∷ rest) (length done) ≡ some x
  get_elem?-length [] x rest = refl
  get_elem?-length (d ∷ done) x rest = get_elem?-length done x rest

  drop_past_suc :
      (done : List A) (x : A) (rest : List A) → drop (suc (length done)) (done ++ x ∷ rest) ≡ rest
  drop_past_suc [] x rest = refl
  drop_past_suc (d ∷ done) x rest = drop_past_suc done x rest

  drop_past :
      (done : List A) (x : A) (rest : List A) → drop (length done + 1) (done ++ x ∷ rest) ≡ rest
  drop_past done x rest = rw add-one (drop_past_suc done x rest)

  length-snoc : (done : List A) (x : A) → length (done ++ x ∷ []) ≡ length done + 1
  length-snoc done x = length-append done (x ∷ [])

rounds_left : (i n : ℕ) → i + suc n - (i + 1) ≡ n
rounds_left i n = omega arith

delete_at_lem :
    (done : List Coin) (x : Coin) (xs junk : List Coin)
    → (j : List Coin) × (delete_at
          (done ++ (x ∷ (xs ++ junk)))
          (length done)
          (length done + suc (length xs))
        ≡ done ++ (xs ++ j))
delete_at_lem done x xs junk = (
  drop (length done + suc (length xs) - 1) (done ++ (x ∷ (xs ++ junk))),
  rw (
    take-length-append done (x ∷ (xs ++ junk)),
    drop_past done x (xs ++ junk),
    rounds_left (length done) (length xs),
    take-length-append xs junk,
  ),
)

module _ (n : ℕ) (array : List Coin) (i : ℕ) {x : Coin} (e : get_elem? array i ≡ some x) where
  loop_zero :
      is_zero x ≡ true
      → remove_zero_loop (suc n) array i ≡ remove_zero_loop n (delete_at array i (i + suc n)) i
  unfolding remove_zero_loop
  loop_zero z = rw (e, remove_zero_loop, z)

  loop_nonzero :
      is_zero x ≡ false → remove_zero_loop (suc n) array i ≡ remove_zero_loop n array (i + 1)
  unfolding remove_zero_loop
  loop_nonzero z = rw (e, remove_zero_loop, z)

-- With the coins before index `i` done, the loop leaves the kept coins in front, and stops behind
-- them.
remove_zero_loop_lem :
    (todo done junk : List Coin)
    → (j : List Coin) × (remove_zero_loop (length todo) (done ++ (todo ++ junk)) (length done)
        ≡ (done ++ (nonzero todo ++ j), length (done ++ nonzero todo)))
remove_zero_loop_lem [] done junk = (junk, unfold remove_zero_loop in rw append-nil)
remove_zero_loop_lem (x ∷ xs) done junk =
    let front = get_elem?-length done x (xs ++ junk) in
    elim (Bool-cases (is_zero x)) [
      | inl z ↦
          let (j, e) = delete_at_lem done x xs junk in
          let (j', e') = remove_zero_loop_lem xs done j in
          (j', loop_zero (length xs) _ (length done) front z ∙ rw (z, e) e')
      | inr z ↦
          let (j, e) = remove_zero_loop_lem xs (done ++ x ∷ []) junk in
          (
            j,
            loop_nonzero (length xs) _ (length done) front z
                ∙ rw z (simp (append_assoc, length-snoc) at e),
          )
    ]

whole_loop :
    (coins : List Coin)
    → (j : List Coin) × (remove_zero_loop (length coins) coins 0
        ≡ (nonzero coins ++ j, length (nonzero coins)))
whole_loop coins =
    let (j, e) = remove_zero_loop_lem coins [] [] in
    (
      j,
      subst
          (λ array.
            remove_zero_loop (length coins) array 0 ≡ (nonzero coins ++ j, length (nonzero coins)))
          (append-nil coins) e,
    )

-- The in-place loop of removeZeroCoins returns the coins with an amount, in their order.
pub remove_zero_coins_lem : (coins : List Coin) → remove_zero_coins coins ≡ nonzero coins
unfolding remove_zero_coins
remove_zero_coins_lem coins =
    let (j, e) = whole_loop coins in rw e (take-length-append (nonzero coins) j)

-- Where a coin without an amount stands before another, removeZeroCoins leaves the other one
-- twice in the slice of the caller.
pub backing_after_remove_twice :
    (z c : Coin)
    → is_zero z ≡ true
    → is_zero c ≡ false
    → (remove_zero_coins (z ∷ c ∷ []) ≡ c ∷ []) × (backing_after_remove (z ∷ c ∷ []) ≡ c ∷ c ∷ [])
unfolding backing_after_remove
backing_after_remove_twice z c hz hc = (
  rw (remove_zero_coins_lem (z ∷ c ∷ []), hz, hc),
  ap (λ state. state.0)
      (loop_zero 1 (z ∷ c ∷ []) 0 refl hz
        ∙ loop_nonzero 0 (c ∷ c ∷ []) 0 refl hc
        ∙ unfold remove_zero_loop in refl),
)
