-- ===== src/HdPath/Scalars.antt =====
-- `addScalars` of crypto/hd/hdpath.go: addition modulo the order of the curve, on 32 bytes.
use plugchain_sdk_go.Prelude.{
  ℕ, zero, suc, ◌+◌, ◌-◌, ◌*◌, ◌/◌, ◌%◌, ◌^◌, ◌≤◌, ◌<◌, ◌≡◌, refl, ◌∙◌, arith, inl, inr, Bool-cases,
  ◌==◌, ==_iff, List, [], ◌∷◌, ◌++◌, length, length-append, length-replicate, replicate,
}
use native.Mathlib.Nat.{mod-lt, pow-succ'}
use plugchain_sdk_go.HdPath.Derive.{
  Crypto, value_from, set_bytes, bytes_loop, bytes, right_aligned, add_scalars,
}

value_from-bytes_loop :
    (fuel n : ℕ) (out : List ℕ) → n ≤ fuel → value_from 0 (bytes_loop fuel n out) ≡ value_from n out
unfolding bytes_loop
value_from-bytes_loop zero n out h = let e : n ≡ 0 = omega arith in rw e
value_from-bytes_loop (suc fuel) n out h = elim (Bool-cases (n == 0)) [
  | inl t ↦ let e : n ≡ 0 = (==_iff n 0).0 t in rw (t, e)
  | inr t ↦
      let back : n / 256 * 256 + n % 256 ≡ n = omega arith in
      let less : n / 256 ≤ fuel = ground arith in
      rw (t, value_from-bytes_loop fuel (n / 256) ((n % 256) ∷ out) less, back)
]

length-bytes_loop :
    (fuel k n : ℕ) (out : List ℕ) → n < 256 ^ k → length (bytes_loop fuel n out) ≤ k + length out
unfolding bytes_loop
length-bytes_loop zero k n out h = omega arith
length-bytes_loop (suc fuel) zero n out h = let e : n ≡ 0 = omega arith in rw e (omega arith)
length-bytes_loop (suc fuel) (suc k) n out h = elim (Bool-cases (n == 0)) [
  | inl t ↦ rw t (omega arith)
  | inr t ↦
      let power : 256 ^ suc k ≡ 256 * 256 ^ k = pow-succ' 256 k in
      let less : n / 256 < 256 ^ k = omega arith in
      let rest = length-bytes_loop fuel k (n / 256) ((n % 256) ∷ out) less in rw t (omega arith)
]

value_from-zeros : (k : ℕ) (s : List ℕ) → value_from 0 (replicate k 0 ++ s) ≡ value_from 0 s
value_from-zeros zero s = refl
value_from-zeros (suc k) s = value_from-zeros k s

-- For a positive order of at most 2^256, the sum of two scalars is their sum modulo the order,
-- and it fills 32 bytes exactly.
pub add_scalars_lem :
    (crypto : Crypto) (a b : List ℕ)
    → 0 < crypto.order
    → crypto.order ≤ 2 ^ 256
    → (set_bytes (add_scalars crypto a b) ≡ (set_bytes a + set_bytes b) % crypto.order)
      × (length (add_scalars crypto a b) ≡ 32)
unfolding add_scalars right_aligned set_bytes bytes
add_scalars_lem crypto a b h k =
    let n : ℕ = (set_bytes a + set_bytes b) % crypto.order in
    let bound : n < crypto.order = mod-lt (set_bytes a + set_bytes b) h in
    let small : n < 256 ^ 32 = omega arith in
    let size : length (bytes_loop n n []) ≤ 32 = omega (arith, length-bytes_loop n 32 n [] small) in
    (
      value_from-zeros (32 - length (bytes_loop n n [])) (bytes_loop n n [])
          ∙ value_from-bytes_loop n n [] (omega arith),
      omega (
        arith,
        length-append (replicate (32 - length (bytes_loop n n [])) 0) (bytes_loop n n []),
        length-replicate {A = ℕ} (32 - length (bytes_loop n n [])) 0,
      ),
    )
