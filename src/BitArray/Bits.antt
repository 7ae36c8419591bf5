-- ===== src/BitArray/Bits.antt =====
-- What `GetIndex`, `SetIndex` and `NumTrueBitsBefore` of crypto/types/compact_bit_array.go do to the
-- bits that an array stands for.
use plugchain_sdk_go.Prelude.{
  ℕ, zero, suc, ◌<◌, ◌≡◌, refl, Bool, true, false, ◌&&◌, ltb, ◌==◌, if◌then◌else◌, arith,
  Bool-cases, and-true, inl, inr, ltb→lt,
}
use plugchain_sdk_go.BitArray.{test_bit, write_bit}

-- Every value below a bound.
every : ℕ → (ℕ → Bool) → Bool
every zero p = true
every (suc n) p = p n && every n p

every_sound : (n : ℕ) (p : ℕ → Bool) (x : ℕ) → every n p ≡ true → x < n → p x ≡ true
unfolding every
every_sound zero p x h lt = absurd (omega arith)
every_sound (suc n) p x h lt = ground (arith, every_sound n p x)

abbrev agree : Bool → Bool → Bool
agree true b = b
agree false true = false
agree false false = true

agree_sound : (a b : Bool) → agree a b ≡ true → a ≡ b
agree_sound a b h = ground arith

-- What one write does to a byte, at one bit.
abbrev write_right : ℕ → ℕ → ℕ → Bool → Bool
write_right e k j v =
    ltb (write_bit e k v) 256
    && agree (test_bit (write_bit e k v) j) (if j == k then v else test_bit e j)

abbrev byte_right : ℕ → Bool
byte_right e = every 8 (λ k. every 8 (λ j. write_right e k j true && write_right e k j false))

bytes_right : every 256 byte_right ≡ true
unfolding every
bytes_right = refl

module _ (e k j : ℕ) (v : Bool) (he : e < 256) (hk : k < 8) (hj : j < 8) where
  both_right : write_right e k j true && write_right e k j false ≡ true
  both_right =
      every_sound 8 _ j (every_sound 8 _ k (every_sound 256 byte_right e bytes_right he) hk) hj

  right : write_right e k j v ≡ true
  right =
      let (t, f) = and-true (write_right e k j true) (write_right e k j false) both_right in
      elim (Bool-cases v) [ inl h ↦ rw h t | inr h ↦ rw h f ]

  pub write_bit-IsByte : write_bit e k v < 256
  write_bit-IsByte = ltb→lt _ _ ((and-true (ltb (write_bit e k v) 256) _ right).0)

  pub test_bit-write_bit : test_bit (write_bit e k v) j ≡ (if j == k then v else test_bit e j)
  test_bit-write_bit = agree_sound _ _ ((and-true (ltb (write_bit e k v) 256) _ right).1)
