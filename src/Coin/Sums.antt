-- ===== src/Coin/Sums.antt =====
-- What the sum of two sets of coins holds, and when it is returned.
use plugchain_sdk_go.Prelude.{
  split_in, ◌+◌, ◌^◌, ◌≤◌, ◌<◌, ◌≡◌, sym, ap, ◌∙◌, true, false, arith, All, ok, panic_if, >>=-eq-ok,
  ok-injective, int_overflow,
}
use plugchain_sdk_go.Prelude.Integer.{ℤ, pos, mag, ◌+ℤ◌, ltb_ℤ}
use plugchain_sdk_go.Denom.{Denom, matches_denom}
use plugchain_sdk_go.Int
use plugchain_sdk_go.Int.Bounds.{add-Checked}
use plugchain_sdk_go.CoinSet
use plugchain_sdk_go.CoinSet.{Coin, is_zero, is_positive, amount_of}
use plugchain_sdk_go.CoinSet.Total.{AdditionLaws, add_coin_inv, total, total-safe_add}
use plugchain_sdk_go.CoinSet.Sorted.{IsSorted}
use plugchain_sdk_go.CoinSet.Merge.{IsSorted-safe_add}
use plugchain_sdk_go.CoinSet.Kept.{All-safe_add, HasAmounts-safe_add, safe_add_returns}
use plugchain_sdk_go.CoinSet.Find.{amount_of_lem}
use plugchain_sdk_go.CoinSet.Valid.{Proper, is_valid_complete}
use plugchain_sdk_go.Coin.{Coins, add}

pub mag-+ : (a b : ℤ) → mag (a +ℤ b) ≤ mag a + mag b
unfolding ◌+ℤ◌
mag-+ a b = ground arith

pub int_add_exact : (a b r : ℤ) → Int.add a b ≡ ok r → r ≡ a +ℤ b
unfolding Int.add
int_add_exact a b r h =
    let (_, _, e) =
      >>=-eq-ok (panic_if (Int.too_long (a +ℤ b)) int_overflow) (λ (_ : Unit {0}). ok (a +ℤ b)) h in
    sym (ok-injective e)

pub int_add_small : (a b : ℤ) → mag a < 2 ^ 254 → mag b < 2 ^ 254 → Int.add a b ≡ ok (a +ℤ b)
int_add_small a b ha hb = split_in (add-Checked a b) (omega (arith, mag-+ a b))

-- The addition of types/int.go is one that the shared code can rely on.
abbrev pub int_addition : AdditionLaws Int.add
int_addition = record { exact = int_add_exact; limit = 2 ^ 254; small = int_add_small }

-- Where two sorted sets of coins are added, AmountOf finds in the sum, for a denomination that
-- matches the pattern, what it finds in the two together.
pub amount_of-add :
    (xs ys r : Coins) (d : Denom) (a b : ℤ)
    → IsSorted xs
    → IsSorted ys
    → matches_denom d ≡ true
    → add xs ys ≡ ok r
    → amount_of xs d ≡ ok a
    → amount_of ys d ≡ ok b
    → amount_of r d ≡ ok (a +ℤ b)
amount_of-add xs ys r d a b sx sy m h ha hb =
    let sr = IsSorted-safe_add Int.add int_addition xs ys r sx sy h in
    let of_xs = ok-injective (sym (amount_of_lem d m xs sx) ∙ ha) in
    let of_ys = ok-injective (sym (amount_of_lem d m ys sy) ∙ hb) in
    amount_of_lem d m r sr
    ∙ ap ok (total-safe_add Int.add int_addition d xs ys r h)
    ∙ rw (of_xs, of_ys)

pos_sum :
    (a b : ℤ) → ltb_ℤ (pos 0) a ≡ true → ltb_ℤ (pos 0) b ≡ true → ltb_ℤ (pos 0) (a +ℤ b) ≡ true
unfolding ◌+ℤ◌
pos_sum a b ha hb = ground arith

positive_sum : (a b r : Coin) → Proper a → Proper b → CoinSet.add_coin Int.add a b ≡ ok r → Proper r
positive_sum a b r pa pb h =
    let (_, same, sum) = add_coin_inv Int.add int_addition a b r h in
    (rw same pa.0, rw same pa.1, rw sum (pos_sum a.amount b.amount pa.2 pb.2))

-- The sum of two sorted sets of proper coins is such a set again, and IsValid accepts it.
pub is_valid-add :
    (xs ys r : Coins)
    → IsSorted xs
    → IsSorted ys
    → All Proper xs
    → All Proper ys
    → add xs ys ≡ ok r
    → (CoinSet.is_valid r ≡ true) × IsSorted r × All Proper r
is_valid-add xs ys r sx sy px py h =
    let sr = IsSorted-safe_add Int.add int_addition xs ys r sx sy h in
    let pr = All-safe_add Int.add int_addition Proper positive_sum xs ys r px py h in
    (is_valid_complete r sr pr, sr, pr)

-- Amounts below 2^254 are added without a panic, whatever the order of the coins; no coin of
-- the sum is without an amount, and the totals add up.
pub add_returns :
    (xs ys : Coins)
    → All (λ (c : Coin). mag c.amount < 2 ^ 254) xs
    → All (λ (c : Coin). mag c.amount < 2 ^ 254) ys
    → (r : Coins) × (add xs ys ≡ ok r)
      × All (λ c. is_zero c ≡ false) r
      × ((d : Denom) → total d r ≡ total d xs +ℤ total d ys)
add_returns xs ys hx hy =
    let (r, e) = safe_add_returns Int.add int_addition xs ys hx hy in
    (
      r,
      e,
      HasAmounts-safe_add Int.add int_addition xs ys r e,
      λ d. total-safe_add Int.add int_addition d xs ys r e,
    )
