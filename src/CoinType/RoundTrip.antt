-- ===== src/CoinType/RoundTrip.antt =====
-- The conversion of an amount between the two units of types/coin_type.go.
use Prim.Native.Nat.add
use native.Mathlib.Nat.{mul-le-mul_left, mul-pos, mul_assoc, one-le-pow, pow-suc, pow-le-pow_right}
use plugchain_sdk_go.Prelude.{
  ℕ, ◌+◌, ◌-◌, ◌*◌, ◌^◌, ◌≤◌, ◌<◌, ◌≡◌, zero, suc, refl, ap, sym, ◌∙◌, true, false, arith, some,
  List, ok,
}
use plugchain_sdk_go.Prelude.Integer.{pos, ◌*ℤ◌}
use plugchain_sdk_go.Prelude.BitLen.{bit_len-lt}
use plugchain_sdk_go.Denom.{Denom, denom_eq, matches_denom}
use plugchain_sdk_go.Denom.Order.{denom_eq_self}
use plugchain_sdk_go.DecCoin.Loops.{new_coin_pos, new_dec_coin_pos}
use plugchain_sdk_go.Int.Bounds.{new_int_from_big_int_pos}
use plugchain_sdk_go.Dec
use plugchain_sdk_go.Dec.Product.{checked_in, mul-new_dec_from_int}
use plugchain_sdk_go.Dec.Quotient.{quo_exact}
use plugchain_sdk_go.Dec.Round.{chop_precision_and_round_lem, round_half_even-*}
use plugchain_sdk_go.CoinType.{
  CoinType, get_scale_factor, rescale, trim_space, is_main_unit, is_min_unit, has_unit,
  convert_to_main_coin, convert_to_min_coin,
}

get_scale_factor_lem :
    (denom : Denom) (scale : ℕ)
    → 10 ^ scale < 2 ^ 255
    → get_scale_factor (record { denom = denom; scale = scale }) ≡ ok (pos (10 ^ scale))
unfolding get_scale_factor
get_scale_factor_lem denom scale h =
    let e : pos 1 *ℤ pos (10 ^ scale) ≡ pos (10 ^ scale) = unfold ◌*ℤ◌ in ground arith in
    rw e (rw (bit_len-lt 255 (10 ^ scale)) (ground arith))

new_dec_from_int_pos : (n : ℕ) → Dec.new_dec_from_int (pos n) ≡ pos (n * Dec.precision_reuse)
unfolding Dec.new_dec_from_int ◌*ℤ◌
new_dec_from_int_pos n = refl

mul_whole :
    (d i : ℕ) → d * i < 2 ^ 315 → Dec.mul (pos d) (Dec.new_dec_from_int (pos i)) ≡ ok (pos (d * i))
unfolding Dec.mul_int ◌*ℤ◌
mul_whole d i h = mul-new_dec_from_int (pos d) (pos i) ∙ checked_in (pos (d * i)) h

-- Where the exact result has no place behind the eighteenth and stays in range, it is returned.
rescale_exact :
    (a b : Denom) (dst src d k : ℕ)
    → 10 ^ dst < 2 ^ 255
    → 10 ^ src < 2 ^ 255
    → d * 10 ^ dst < 2 ^ 315
    → k * 10 ^ src ≡ d * 10 ^ dst
    → k < 2 ^ 315
    → rescale (record { denom = a; scale = dst }) (record { denom = b; scale = src }) (pos d)
      ≡ ok (pos k)
unfolding rescale
rescale_exact a b dst src d k hd hs hn e hk =
    rw
      (
        get_scale_factor_lem a dst hd,
        get_scale_factor_lem b src hs,
        mul_whole d (10 ^ dst) hn,
        new_dec_from_int_pos (10 ^ src),
      )
      (quo_exact (d * 10 ^ dst) (10 ^ src * Dec.precision_reuse) k
        (mul-pos (one-le-pow src 10 (omega arith)) (omega arith))
        (omega (arith, ap (λ (t : ℕ). t * Dec.precision_reuse) e)) hk)

ten-pow-add : (a b : ℕ) → 10 ^ (a + b) ≡ 10 ^ a * 10 ^ b
ten-pow-add zero b = rw add.zero (omega arith)
ten-pow-add (suc a) b =
    rw (add.suc, pow-suc 10 (a + b), pow-suc 10 a) (grind (arith, ten-pow-add a b))

complement : (s : ℕ) → s ≤ 18 → 10 ^ (18 - s) * 10 ^ s ≡ Dec.precision_reuse
complement s h =
    let e : 18 - s + s ≡ 18 = omega arith in sym (ten-pow-add (18 - s) s) ∙ ap (λ (t : ℕ). 10 ^ t) e

round_whole : (n : ℕ) → n < 2 ^ 255 → Dec.round_int (pos (n * Dec.precision_reuse)) ≡ ok (pos n)
unfolding Dec.round_int
round_whole n h =
    rw (chop_precision_and_round_lem, round_half_even-*) (new_int_from_big_int_pos n h)

module _ (name desc main min : List ℕ) (s n : ℕ) (hs : s ≤ 18) (hn : n < 2 ^ 255)
    (trimmed_main : trim_space main ≡ main) (trimmed_min : trim_space min ≡ min)
    (apart : denom_eq main min ≡ false) (apart' : denom_eq min main ≡ false)
    (match_main : matches_denom main ≡ true) (match_min : matches_denom min ≡ true) where
  abbrev ct : CoinType
  ct = record {
    name = name;
    min_unit = record { denom = min; scale = s };
    main_unit = record { denom = main; scale = 0 };
    desc = desc;
  }

  abbrev converted : ℕ
  converted = n * 10 ^ (18 - s)

  abbrev below : (i : ℕ) → i ≤ 18 → 10 ^ i ≤ 10 ^ 18
  below i h = pow-le-pow_right (omega arith) h

  scale_small : 10 ^ s < 2 ^ 255
  scale_small = omega (arith, below s hs)

  whole : converted * 10 ^ s ≡ n * Dec.precision_reuse
  whole = rw (mul_assoc n (10 ^ (18 - s)) (10 ^ s), complement s hs) refl

  converted_small : converted < 2 ^ 315
  converted_small = omega (arith, mul-le-mul_left n (below (18 - s) (omega arith)))

  to_main :
      convert_to_main_coin ct (record { denom = min; amount = pos n })
      ≡ ok (some (record { denom = main; amount = pos converted }))
  unfolding convert_to_main_coin has_unit is_main_unit is_min_unit
  to_main =
      rw
        (
          trimmed_min,
          apart,
          denom_eq_self min,
          new_dec_from_int_pos n,
          rescale_exact main min 0 s (n * Dec.precision_reuse) converted (omega arith) scale_small
              (omega arith) (omega (arith, whole)) converted_small,
          new_dec_coin_pos main match_main converted,
        )
        refl

  to_min :
      convert_to_min_coin ct (record { denom = main; amount = pos converted })
      ≡ ok (record { denom = min; amount = pos n })
  unfolding convert_to_min_coin has_unit is_main_unit is_min_unit
  to_min =
      rw
        (
          trimmed_main,
          apart',
          denom_eq_self main,
          rescale_exact min main s 0 converted (n * Dec.precision_reuse) scale_small (omega arith)
              (omega (arith, whole)) (omega (arith, whole)) (omega arith),
          round_whole n hn,
          new_coin_pos min match_min n,
        )
        refl

  -- For a main unit of scale 0 and a min unit of scale at most 18, with distinct denominations that
  -- match the pattern and have no blanks around them: an amount below 2^255 of the min unit is
  -- converted exactly to the main unit, and converted back to what it was.
  pub convert_to_min_coin-convert_to_main_coin :
      (m : ℕ) × (convert_to_main_coin ct (record { denom = min; amount = pos n })
        ≡ ok (some (record { denom = main; amount = pos m })))
      × (m * 10 ^ s ≡ n * Dec.precision_reuse)
      × (convert_to_min_coin ct (record { denom = main; amount = pos m })
          ≡ ok (record { denom = min; amount = pos n }))
  convert_to_min_coin-convert_to_main_coin = (converted, to_main, whole, to_min)
