-- ===== src/Swap/Price.antt =====
-- The prices that modules/coinswap/coinswap.go computes for a pool of two reserves.
use native.Mathlib.Nat.{
  div-mul-le_self, lt-mul-div-succ, le-div_iff_mul-le, mul-le-mul_left, mul-le-mul_right,
  le_of_mul-le-mul_left, div-le_of_le-mul, lt_of_mul-lt-mul_right, mul-pos, sub-le,
}
use plugchain_sdk_go.Prelude.{ℕ, ◌+◌, ◌-◌, ◌*◌, ◌/◌, ◌^◌, ◌≤◌, ◌<◌, ◌≡◌, refl, arith, ok}
use plugchain_sdk_go.Prelude.Integer.{pos, int_laws, ◌-ℤ◌, ◌*ℤ◌}
use plugchain_sdk_go.Prelude.BitLen.{bit_len}
use plugchain_sdk_go.Int
use plugchain_sdk_go.Int.Bounds.{mul_pos, add_pos, sub_pos, quo_pos, new_int_from_big_int_pos}
use plugchain_sdk_go.Dec
use plugchain_sdk_go.Dec.Product.{checked_in}
use plugchain_sdk_go.Swap.{delta_fee, get_input_price, get_output_price}

-- What is left of one after a fee.
abbrev pub delta : ℕ → ℕ
delta fee = Dec.precision_reuse - fee

module _ (fee : ℕ) (f : fee ≤ Dec.precision_reuse) where
  sub_fee : Dec.sub Dec.one_dec (pos fee) ≡ ok (pos (delta fee))
  unfolding Dec.sub Dec.one_dec
  sub_fee =
      let e : pos Dec.precision_reuse -ℤ pos fee ≡ pos (delta fee) = omega int_laws in
      rw e (checked_in (pos (delta fee)) (omega arith))

  delta_fee_lem : delta_fee (pos fee) ≡ ok (pos (delta fee))
  unfolding delta_fee
  delta_fee_lem = rw sub_fee (new_int_from_big_int_pos (delta fee) (omega arith))

one_lem : Int.new_int_with_decimal (pos 1) (pos Dec.precision) ≡ ok (pos Dec.precision_reuse)
unfolding Int.new_int_with_decimal bit_len ◌*ℤ◌
one_lem = refl

-- What a sale of `x` and the price of `y` are, by exact arithmetic.
abbrev pub sold : (x input_reserve output_reserve fee : ℕ) → ℕ
sold x input_reserve output_reserve fee =
    x * delta fee * output_reserve / (input_reserve * Dec.precision_reuse + x * delta fee)

abbrev pub price : (y input_reserve output_reserve fee : ℕ) → ℕ
price y input_reserve output_reserve fee =
    input_reserve * y * Dec.precision_reuse / ((output_reserve - y) * delta fee) + 1

module _ (input_reserve x d p rest n : ℕ) (hp : 0 < p) (hd : d ≤ p) where
  product_kept :
      n * (input_reserve * p + x * d) ≤ x * d * (rest + n)
      → input_reserve * (rest + n) ≤ (input_reserve + x) * rest
  product_kept h =
      let above : x * d * rest ≤ x * p * rest = mul-le-mul_right rest (mul-le-mul_left x hd) in
      let e : p * (input_reserve * n) ≤ p * (x * rest) = omega arith in
      let kept = le_of_mul-le-mul_left e hp in omega arith

module _ (x input_reserve output_reserve fee : ℕ) (f : fee ≤ Dec.precision_reuse)
    (hr : 0 < input_reserve) (hx : x < 2 ^ 255) (ho : output_reserve < 2 ^ 255)
    (hn : x * delta fee * output_reserve < 2 ^ 255)
    (hd : input_reserve * Dec.precision_reuse + x * delta fee < 2 ^ 255) where
  get_input_price-sold :
      get_input_price (pos x) (pos input_reserve) (pos output_reserve) (pos fee)
      ≡ ok (pos (sold x input_reserve output_reserve fee))
  unfolding get_input_price
  get_input_price-sold =
      rw
        (
          delta_fee_lem fee f,
          mul_pos x (delta fee) hx (omega arith) (omega arith),
          mul_pos (x * delta fee) output_reserve (omega arith) ho hn,
          one_lem,
          mul_pos input_reserve Dec.precision_reuse (omega arith) (omega arith) (omega arith),
          add_pos (input_reserve * Dec.precision_reuse) (x * delta fee) hd,
        )
        (quo_pos _ _ (omega arith))

  sold_le : sold x input_reserve output_reserve fee ≤ output_reserve
  sold_le = div-le_of_le-mul _ (mul-le-mul_right output_reserve (omega arith))

  -- At a fee of at most one, a sale to a reserve that is not empty whose intermediate results
  -- are in range succeeds; it pays at most the reserve that is bought from, and the product of
  -- the reserves does not fall.
  pub get_input_price_lem :
      (n : ℕ) × (get_input_price (pos x) (pos input_reserve) (pos output_reserve) (pos fee)
        ≡ ok (pos n))
      × (n ≤ output_reserve)
      × (input_reserve * output_reserve ≤ (input_reserve + x) * (output_reserve - n))
  get_input_price_lem =
      let n = sold x input_reserve output_reserve fee in
      let e : output_reserve - n + n ≡ output_reserve = omega (arith, sold_le) in
      let kept =
        product_kept input_reserve x (delta fee) Dec.precision_reuse (output_reserve - n) n
          (omega arith) (sub-le Dec.precision_reuse fee) in
      (n, get_input_price-sold, sold_le, (rw e at kept) (div-mul-le_self _ _))

module _ (input_reserve y p d rest n : ℕ) (hd : d ≤ p)
    (h : input_reserve * y * p < rest * d * n) where
  enough : y * (input_reserve * p + n * d) ≤ n * d * (rest + y)
  enough = omega arith

  product_grows : input_reserve * (rest + y) < (input_reserve + n) * rest
  product_grows =
      let above : n * rest * d ≤ n * rest * p = mul-le-mul_left (n * rest) hd in
      let e : input_reserve * y * p < n * rest * p = omega arith in
      let grows = lt_of_mul-lt-mul_right p e in omega arith

module _ (y input_reserve output_reserve fee : ℕ) (f : fee < Dec.precision_reuse)
    (hy : y < output_reserve) (hr : input_reserve < 2 ^ 255) (ho : output_reserve < 2 ^ 255)
    (hn : input_reserve * y * Dec.precision_reuse < 2 ^ 255)
    (hd : (output_reserve - y) * delta fee < 2 ^ 255)
    (hp : price y input_reserve output_reserve fee < 2 ^ 255) where
  delta-pos : 0 < (output_reserve - y) * delta fee
  delta-pos = mul-pos (omega arith) (omega arith)

  get_output_price-price :
      get_output_price (pos y) (pos input_reserve) (pos output_reserve) (pos fee)
      ≡ ok (pos (price y input_reserve output_reserve fee))
  unfolding get_output_price Int.one_int
  get_output_price-price =
      rw
        (
          sub_fee fee (omega arith),
          mul_pos input_reserve y hr (omega arith) (omega arith),
          one_lem,
          mul_pos (input_reserve * y) Dec.precision_reuse (omega arith) (omega arith) hn,
          sub_pos output_reserve y (omega arith) ho,
          new_int_from_big_int_pos (delta fee) (omega arith),
          mul_pos (output_reserve - y) (delta fee) (omega arith) (omega arith) hd,
          quo_pos (input_reserve * y * Dec.precision_reuse) ((output_reserve - y) * delta fee)
              delta-pos,
        )
        (add_pos _ _ hp)

  -- At a fee below one, a purchase of less than the whole reserve whose intermediate results are
  -- in range succeeds, and the product of the reserves grows.
  pub get_output_price_lem :
      (n : ℕ) × (get_output_price (pos y) (pos input_reserve) (pos output_reserve) (pos fee)
        ≡ ok (pos n))
      × (input_reserve * output_reserve < (input_reserve + n) * (output_reserve - y))
  get_output_price_lem =
      let n = price y input_reserve output_reserve fee in
      let e : output_reserve - y + y ≡ output_reserve = omega arith in
      let h = lt-mul-div-succ (input_reserve * y * Dec.precision_reuse) delta-pos in
      (
        n,
        get_output_price-price,
        rw e at (
            product_grows input_reserve y Dec.precision_reuse (delta fee) (output_reserve - y) n
              (sub-le Dec.precision_reuse fee) h),
      )

  -- A purchase of less than the whole reserve, at a fee below one, and a sale of the price that
  -- it names to a reserve that is not empty, both in range, succeed, and the sale pays at least
  -- the amount that was to be bought.
  pub get_input_price-get_output_price :
      0 < input_reserve
      → price y input_reserve output_reserve fee * delta fee * output_reserve < 2 ^ 255
      → input_reserve * Dec.precision_reuse + price y input_reserve output_reserve fee * delta fee
        < 2 ^ 255
      → (n m : ℕ) × (get_output_price (pos y) (pos input_reserve) (pos output_reserve) (pos fee)
          ≡ ok (pos n))
        × (get_input_price (pos n) (pos input_reserve) (pos output_reserve) (pos fee) ≡ ok (pos m))
        × (y ≤ m)
  get_input_price-get_output_price hr' hn' hd' =
      let n = price y input_reserve output_reserve fee in
      let e : output_reserve - y + y ≡ output_reserve = omega arith in
      let h = lt-mul-div-succ (input_reserve * y * Dec.precision_reuse) delta-pos in
      (
        n,
        sold n input_reserve output_reserve fee,
        get_output_price-price,
        get_input_price-sold n input_reserve output_reserve fee (omega arith) hr' hp ho hn' hd',
        (le-div_iff_mul-le (omega arith)).1 (
            rw e at (
              enough input_reserve y Dec.precision_reuse (delta fee) (output_reserve - y) n
                (sub-le Dec.precision_reuse fee) h)),
      )
