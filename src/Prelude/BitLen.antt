-- ===== src/Prelude/BitLen.antt =====
-- `big.Int.BitLen`: the number of binary digits of the absolute value.
use native.Mathlib.Nat.{two-pow-succ, one-le-pow}
use Prim.Native.Nat.add
use plugchain_sdk_go.Prelude.{
  ℕ, zero, suc, ◌+◌, ◌-◌, ◌*◌, ◌/◌, ◌^◌, ◌≤◌, ◌<◌, ◌≡◌, refl, arith, ltb, leb, ◌==◌, if◌then◌else◌,
  Bool-cases, inl, inr,
}

-- The first argument bounds the rounds; the number itself is always enough.
halvings : ℕ → ℕ → ℕ
halvings zero n = 0
halvings (suc f) n = let rest = suc (halvings f (n / 2)) in if n == 0 then 0 else rest

unfoldable pub bit_len : ℕ → ℕ
unfolding halvings
bit_len n = halvings n n

halvings-le : (f n k : ℕ) → n ≤ f → n < 2 ^ k → halvings f n ≤ k
unfolding halvings
halvings-le zero n k h p = omega arith
halvings-le (suc f) n zero h p = ground arith
halvings-le (suc f) n (suc k) h p =
    let e = two-pow-succ k in ground (arith, halvings-le f (n / 2) k)

lt_of_halvings : (f n k : ℕ) → n ≤ f → halvings f n ≤ k → n < 2 ^ k
unfolding halvings
lt_of_halvings zero n k h p = ground (arith, one-le-pow k 2)
lt_of_halvings (suc f) n zero h p = ground arith
lt_of_halvings (suc f) n (suc k) h p =
    let e = two-pow-succ k in ground (arith, lt_of_halvings f (n / 2) k, one-le-pow k 2)

-- `n` has at most `k` digits exactly if it is below `2 ^ k`.
pub bit_len-le : (n k : ℕ) → n < 2 ^ k → bit_len n ≤ k
unfolding bit_len
bit_len-le n k h = halvings-le n n k (omega arith) h

pub lt_of_bit_len : (n k : ℕ) → bit_len n ≤ k → n < 2 ^ k
unfolding bit_len
lt_of_bit_len n k h = lt_of_halvings n n k (omega arith) h

-- The test `BitLen() > k` reads `n >= 2 ^ k`.
pub bit_len-lt : (k n : ℕ) → ltb k (bit_len n) ≡ leb (2 ^ k) n
bit_len-lt k n = elim (Bool-cases (ltb k (bit_len n))) [
  | inl h ↦ ground (arith, bit_len-le n k)
  | inr h ↦ ground (arith, lt_of_bit_len n k)
]

-- A number with `k + 1` digits is at least `2 ^ k`.
pub pow-le_of_bit_len : (k n : ℕ) → k < bit_len n → 2 ^ k ≤ n
pow-le_of_bit_len k n h = ground (arith, bit_len-le n k)

pub pow-add : (a b : ℕ) → 2 ^ (a + b) ≡ 2 ^ a * 2 ^ b
pow-add zero b = rw add.zero (omega arith)
pow-add (suc a) b =
    let e = pow-add a b in
    let p = two-pow-succ a in rw (add.suc, two-pow-succ (a + b), p) (grind (arith, e))

bit_len_of_max : bit_len (2 ^ 255 - 1) ≡ 255
unfolding bit_len
bit_len_of_max = refl
