-- ===== src/BitArray/Compact.antt =====
-- `CompactMarshal` and `CompactUnmarshal` of crypto/types/compact_bit_array.go, with the variable-length
-- integers of encoding/binary.
use plugchain_sdk_go.Prelude.{
  ℕ, zero, suc, ◌+◌, ◌-◌, ◌*◌, ◌/◌, ◌%◌, ◌^◌, ◌≤◌, ◌<◌, ◌≡◌, refl, sym, ap, ◌∙◌, arith, Bool, true,
  false, not, and-false, ◌&&◌, ◌||◌, ltb, leb, ◌==◌, if◌then◌else◌, Bool-cases, inl, inr, List, [],
  ◌∷◌, ◌++◌, length, length-append, drop, drop-length-append, Option, none, some, Result, ok, err,
  panic, invalid_size, slice_out_of_range,
}
use native.Mathlib.Omega.{pow_step}
use plugchain_sdk_go.Prelude.Integer.{ℤ, pos, negsuc, mag}
use plugchain_sdk_go.Denom.{denom_eq}
use plugchain_sdk_go.Denom.Order.{eq_of_denom_eq}
use plugchain_sdk_go.BitArray.{CompactBitArray, new_compact_bit_array, count}
use plugchain_sdk_go.BitArray.Json.{null}
use plugchain_sdk_go.BitArray.View.{IsValid, size, count-size}

-- `binary.PutUvarint`: each round writes seven bits, so more rounds than the number are enough.
unfoldable pub put_loop : ℕ → ℕ → List ℕ
put_loop zero x = []
put_loop (suc fuel) x =
    let rest = put_loop fuel (x / 128) in if ltb x 128 then x ∷ [] else (x % 128 + 128) ∷ rest

unfoldable pub append_uvarint : List ℕ → ℕ → List ℕ
unfolding put_loop
append_uvarint b x = b ++ put_loop (suc x) x

-- `binary.Uvarint` behind `i` bytes, which spell `x`; `scale` is the power of two that the next byte has.
-- A number of more than 64 bits gives a count that is negative, and bytes that end too early the count 0.
unfoldable pub uvarint_loop : ℕ → ℕ → ℕ → List ℕ → ℕ × ℤ
uvarint_loop i x scale [] = (0, pos 0)
uvarint_loop i x scale (b ∷ bz) =
    let rest = uvarint_loop (i + 1) (x + b % 128 * scale) (scale * 128) bz in
    if ltb b 128
    then (if leb 10 i || (i == 9 && ltb 1 b) then (0, negsuc i) else (x + b * scale, pos (i + 1)))
    else rest

unfoldable pub uvarint : List ℕ → ℕ × ℤ
unfolding uvarint_loop
uvarint bz = uvarint_loop 0 0 1 bz

-- `bz[n:]`
abbrev pub from_index : ℤ → List ℕ → Result (List ℕ)
from_index (negsuc n) bz = panic slice_out_of_range
from_index (pos n) bz = if ltb (length bz) n then panic slice_out_of_range else ok (drop n bz)

-- `len(bz) == int(size+7)/8`: the sum is that of uint64, and a quotient of int is cut towards zero.
unfoldable pub size_matches : ℕ → ℕ → Bool
size_matches len size =
    let sum = (size + 7) % 2 ^ 64 in
    if ltb sum (2 ^ 63) then len == sum / 8 else (len == 0 && ltb (2 ^ 64 - sum) 8)

unfoldable pub marshal_count : CompactBitArray → ℤ → List ℕ
unfolding append_uvarint
marshal_count b (pos zero) = null
marshal_count b (negsuc n) = null
marshal_count b (pos (suc n)) = append_uvarint [] (suc n) ++ b.elems

-- `CompactMarshal`; the pointer that is nil is `none`.
unfoldable pub compact_marshal : Option CompactBitArray → List ℕ
unfolding marshal_count
compact_marshal none = null
compact_marshal (some b) = marshal_count b (count b)

-- The end of `CompactUnmarshal`, behind the length.
unfoldable pub unmarshal_elems : ℕ → Result (List ℕ) → Result (Option CompactBitArray)
unfolding size_matches
unmarshal_elems size (ok bz) =
    if not (size_matches (length bz) size)
    then err invalid_size
    else ok (some (record { extra_bits_stored = size % 8; elems = bz }))
unmarshal_elems size (err e) = err e
unmarshal_elems size (panic p) = panic p

unfoldable pub compact_unmarshal : List ℕ → Result (Option CompactBitArray)
unfolding uvarint unmarshal_elems new_compact_bit_array
compact_unmarshal bz =
    if ltb (length bz) 2
    then err invalid_size
    else if denom_eq bz null
    then ok (new_compact_bit_array (pos 0))
    else unmarshal_elems (uvarint bz).0 (from_index (uvarint bz).1 bz)

-- What is written is read back, with any bytes behind it.
uvarint_loop-put_loop :
    (k fuel i x scale y : ℕ) (bz : List ℕ)
    → y < 128 ^ k
    → i + k ≤ 9
    → y < fuel
    → uvarint_loop i x scale (put_loop fuel y ++ bz)
      ≡ (x + y * scale, pos (i + length (put_loop fuel y)))
unfolding uvarint_loop put_loop
uvarint_loop-put_loop k zero i x scale y bz h few enough = absurd (omega arith)
uvarint_loop-put_loop zero (suc fuel) i x scale y bz h few enough =
    let small : ltb y 128 ≡ true = ground arith in
    let early : leb 10 i ≡ false = ground arith in
    let clear : ltb 1 y ≡ false = ground arith in
    rw (small, small, early, clear, and-false (i == 9)) refl
uvarint_loop-put_loop (suc k) (suc fuel) i x scale y bz h few enough =
    elim (Bool-cases (ltb y 128)) [
      | inl t ↦
          let early : leb 10 i ≡ false = ground arith in
          let early9 : (i == 9) ≡ false = ground arith in rw (t, t, early, early9) refl
      | inr t ↦
          let high : ltb (y % 128 + 128) 128 ≡ false = ground arith in
          let low : (y % 128 + 128) % 128 ≡ y % 128 = omega arith in
          let less : y / 128 < 128 ^ k = omega (arith, pow_step 128 k, h) in
          let spent : y / 128 < fuel = ground arith in
          let split : y ≡ y % 128 + y / 128 * 128 = omega arith in
          let value : x + y % 128 * scale + y / 128 * (scale * 128) ≡ x + y * scale =
            omega (arith, ap (λ (n : ℕ). n * scale) split) in
          let ih =
            uvarint_loop-put_loop k fuel (i + 1) (x + y % 128 * scale) (scale * 128) (y / 128) bz
              less (omega arith) spent in
          rw (t, high, low, ih, value) (ap (λ (n : ℕ). (x + y * scale, pos n)) (omega arith))
    ]

-- A number of at most 63 bits is read back from its bytes, with their count.
uvarint-append_uvarint :
    (y : ℕ) (bz : List ℕ)
    → y < 2 ^ 63
    → uvarint (append_uvarint [] y ++ bz) ≡ (y, pos (length (append_uvarint [] y)))
unfolding uvarint append_uvarint
uvarint-append_uvarint y bz h =
    let read =
      uvarint_loop-put_loop 9 (suc y) 0 0 1 y bz (omega arith) (omega arith) (omega arith) in
    let value : 0 + y * 1 ≡ y = omega arith in
    let at : 0 + length (put_loop (suc y) y) ≡ length (put_loop (suc y) y) = omega arith in
    rw (value, at) at read

-- The bytes of a number are one at least.
append_uvarint_filled : (y : ℕ) → 0 < length (append_uvarint [] y)
unfolding append_uvarint put_loop
append_uvarint_filled y = elim (Bool-cases (ltb y 128)) [
  | inl t ↦ rw t (omega arith)
  | inr t ↦ rw t (omega arith)
]

uvarint-null : uvarint null ≡ (110, pos 1)
unfolding uvarint
uvarint-null = refl

from_index-append : (front bz : List ℕ) → from_index (pos (length front)) (front ++ bz) ≡ ok bz
from_index-append front bz =
    let within : ltb (length (front ++ bz)) (length front) ≡ false =
      ground (arith, length-append front bz) in
    rw (within, drop-length-append front bz) refl

module _ (b : CompactBitArray) (valid : IsValid b) (h : 0 < size b) where
  elems_filled : 0 < length b.elems
  elems_filled = ground (arith, valid.held, valid.few)

  size_matches-size : size b + 7 < 2 ^ 63 → size_matches (length b.elems) (size b) ≡ true
  unfolding size_matches
  size_matches-size k = ground (arith, valid.held, valid.few)

  extra-size : size b % 8 ≡ b.extra_bits_stored
  extra-size = ground (arith, valid.held, valid.few)

  -- The bytes are not those of "null", which spell a size of 110 before three bytes.
  compact_bytes_ne_null :
      (n : ℕ) → size b ≡ n → n + 7 < 2 ^ 63 → denom_eq (append_uvarint [] n ++ b.elems) null ≡ false
  compact_bytes_ne_null n e k = elim (Bool-cases (denom_eq (append_uvarint [] n ++ b.elems) null)) [
    | inr t ↦ t
    | inl t ↦
        let same = eq_of_denom_eq (append_uvarint [] n ++ b.elems) null t in
        let read : ◌≡◌ {A = ℕ × ℤ} (n, pos (length (append_uvarint [] n))) (110, pos 1) =
          sym (uvarint-append_uvarint n b.elems (omega arith)) ∙ ap uvarint same ∙ uvarint-null in
        let value : n ≡ 110 = ap (λ (r : ℕ × ℤ). r.0) read in
        let one : length (append_uvarint [] n) ≡ 1 = ap (λ (r : ℕ × ℤ). mag r.1) read in
        let four : length (append_uvarint [] n) + length b.elems ≡ 4 =
          sym (length-append (append_uvarint [] n) b.elems) ∙ ap length same in
        absurd (ground (arith, valid.held, valid.few))
  ]

  -- A valid array that is not empty, of less than 2^63 - 7 bits, is what CompactUnmarshal makes
  -- of the bytes that CompactMarshal writes.
  pub compact_unmarshal-compact_marshal :
      size b + 7 < 2 ^ 63 → compact_unmarshal (compact_marshal (some b)) ≡ ok (some b)
  unfolding compact_unmarshal compact_marshal marshal_count unmarshal_elems
  compact_unmarshal-compact_marshal k = read_back (size b) refl h
    where
      read_back :
          (n : ℕ) → size b ≡ n → 0 < n → compact_unmarshal (compact_marshal (some b)) ≡ ok (some b)
      read_back zero e p = absurd (omega arith)
      read_back (suc n) e p =
          let bytes = append_uvarint [] (suc n) in
          let sized : count b ≡ pos (suc n) = count-size b valid ∙ ap pos e in
          let long : ltb (length (bytes ++ b.elems)) 2 ≡ false =
            ground
              (arith, length-append bytes b.elems, elems_filled, append_uvarint_filled (suc n)) in
          let other = compact_bytes_ne_null (suc n) e (omega arith) in
          let read = uvarint-append_uvarint (suc n) b.elems (omega arith) in
          let fits : size_matches (length b.elems) (suc n) ≡ true = rw e at (size_matches-size k) in
          let extra : suc n % 8 ≡ b.extra_bits_stored = rw e at extra-size in
          rw (sized, long, other, read, from_index-append bytes b.elems, fits, extra) refl
