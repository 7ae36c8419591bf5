-- ===== src/Client/Segments.antt =====
-- `SubArray` of utils/commom.go: the segments are the array, cut into pieces of at most `subLen`.
use plugchain_sdk_go.Prelude.{
  ℕ, zero, suc, ◌+◌, ◌-◌, ◌*◌, ◌/◌, ◌%◌, ◌≤◌, ◌<◌, ◌≡◌, refl, sym, ap, ◌∙◌, arith, inl, inr, false,
  Bool-cases, not-ltb→le, ltb, leb, ◌==◌, if◌then◌else◌, List, [], ◌∷◌, ◌++◌, append-nil, length,
  take, drop, length-take, length-drop, take-append-drop, All, ok,
}
use native.Mathlib.Nat.{mod-add-div', lt-div-mul-add}
use plugchain_sdk_go.Client.Batch.{sub, segments_loop, sub_array}

module _ {ℓ} {A : Type ℓ} where
  abbrev pub concat : List (List A) → List A
  concat [] = []
  concat (xs ∷ xss) = xs ++ concat xss

  take_all : (n : ℕ) (xs : List A) → length xs ≤ n → take n xs ≡ xs
  take_all zero [] h = refl
  take_all zero (x ∷ xs) h = absurd (omega arith)
  take_all (suc n) [] h = refl
  take_all (suc n) (x ∷ xs) h = ap (λ r. x ∷ r) (take_all n xs (omega arith))

  drop_all : (n : ℕ) (xs : List A) → length xs ≤ n → drop n xs ≡ []
  drop_all zero [] h = refl
  drop_all zero (x ∷ xs) h = absurd (omega arith)
  drop_all (suc n) [] h = refl
  drop_all (suc n) (x ∷ xs) h = drop_all n xs (omega arith)

  drop-drop : (n m : ℕ) (xs : List A) → drop n (drop m xs) ≡ drop (m + n) xs
  drop-drop n zero xs = let e : zero + n ≡ n = omega arith in rw e
  drop-drop zero (suc m) [] = sym (drop_all (suc m + zero) [] (omega arith))
  drop-drop (suc n) (suc m) [] = sym (drop_all (suc m + suc n) [] (omega arith))
  drop-drop n (suc m) (x ∷ xs) =
      let e : suc m + n ≡ suc (m + n) = omega arith in rw e (drop-drop n m xs)

  -- What holds of a list of segments `mss` of `xs`.
  abbrev pub IsSplit : ℕ → List A → List (List A) → Type ℓ
  IsSplit k xs mss = (concat mss ≡ xs) × All (λ ms. length ms ≤ k) mss

  module _ (k : ℕ) (xs : List A) where
    cons-IsSplit :
        (i : ℕ) (rest : List (List A))
        → IsSplit k (drop ((i + 1) * k) xs) rest
        → IsSplit k (drop (i * k) xs) (sub (i * k) ((i + 1) * k) xs ∷ rest)
    cons-IsSplit i rest (whole, short) =
        let next : (i + 1) * k ≡ i * k + k = omega arith in
        let len : (i + 1) * k - i * k ≡ k = omega arith in
        let cut = take-append-drop k (drop (i * k) xs) in
        let back : concat rest ≡ drop k (drop (i * k) xs) =
          whole ∙ rw (next, drop-drop k (i * k) xs) in
        rw (len, back) (cut, (omega (arith, length-take k (drop (i * k) xs)), short))

    last-IsSplit :
        (i : ℕ)
        → length xs ≤ i * k + k
        → IsSplit k (drop (i * k) xs) (sub (i * k) (length xs) xs ∷ [])
    last-IsSplit i h =
        let all : take (length xs - i * k) (drop (i * k) xs) ≡ drop (i * k) xs =
          take_all _ _ (omega (arith, length-drop (i * k) xs)) in
        rw all (append-nil _, (omega (arith, length-drop (i * k) xs), tt))

    segments_loop-IsSplit :
        (left i : ℕ)
        → length xs ≤ i * k + left * k
        → IsSplit k (drop (i * k) xs) (segments_loop left i k xs)
    unfolding segments_loop
    segments_loop-IsSplit zero i h = (sym (drop_all (i * k) xs (omega arith)), tt)
    segments_loop-IsSplit (suc zero) i h = last-IsSplit i (omega arith)
    segments_loop-IsSplit (suc (suc left)) i h =
        let more : (suc left == 0) ≡ false = ground arith in
        let rest = segments_loop-IsSplit (suc left) (i + 1) (omega arith) in
        rw more (cons-IsSplit i (segments_loop (suc left) (i + 1) k xs) rest)

    -- The number of the rounds: the quotient, and one more for a remainder.
    rounds-enough :
        0 < k
        → length xs
          ≤ 0 * k + (if ltb 0 (length xs % k) then length xs / k + 1 else length xs / k) * k
    rounds-enough h = elim (Bool-cases (ltb 0 (length xs % k))) [
      | inl t ↦ rw t (omega (arith, lt-div-mul-add {a = length xs} h))
      | inr t ↦
          let none_left = not-ltb→le 0 (length xs % k) t in
          rw t (omega (arith, mod-add-div' (length xs) k))
    ]

    -- SubArray with a positive length cuts the array into consecutive segments of at most that
    -- length, and does not divide by zero.
    pub sub_array_lem : 0 < k → (mss : List (List A)) × (sub_array k xs ≡ ok mss) × IsSplit k xs mss
    unfolding sub_array
    sub_array_lem h = elim (Bool-cases (leb (length xs) k)) [
      | inl t ↦
          let short : length xs ≤ k = ground arith in (xs ∷ [], rw t, (append-nil xs, (short, tt)))
      | inr t ↦
          let divisible : (k == 0) ≡ false = ground arith in
          let rounds : ℕ = (if ltb 0 (length xs % k) then length xs / k + 1 else length xs / k) in
          let split = segments_loop-IsSplit rounds 0 (rounds-enough h) in
          let start : 0 * k ≡ 0 = omega arith in
          (segments_loop rounds 0 k xs, rw (t, divisible), (rw start at split))
    ]
