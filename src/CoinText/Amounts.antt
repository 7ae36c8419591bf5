-- ===== src/CoinText/Amounts.antt =====
-- The text of one coin of types/coin.go, and of types/dec_coin.go, is read back as the coin.
use plugchain_sdk_go.Prelude.{
  ℕ, zero, suc, ◌≡◌, refl, sym, ap, ◌∙◌, arith, true, false, ◌==◌, List, [], ◌∷◌, ◌++◌,
  append_assoc, length, All, All-append, Option, some, ok,
}
use mathlib.Core.Path.{subst}
use plugchain_sdk_go.Prelude.Integer.{pos}
use plugchain_sdk_go.Prelude.Text.{
  digits, print, print-head, IsDigit, digits-print, print-IsDigit, print-cons,
}
use plugchain_sdk_go.Denom.{Denom, matches_denom, validate_denom, must_validate_denom}
use plugchain_sdk_go.CoinType.{trim_space}
use plugchain_sdk_go.CoinSet.{Coin}
use plugchain_sdk_go.Int
use plugchain_sdk_go.Int.{too_long}
use plugchain_sdk_go.Coin
use plugchain_sdk_go.Dec
use plugchain_sdk_go.Dec.{with_point}
use plugchain_sdk_go.Dec.Text.{with_point-HasPoint, new_dec_from_str-dec_string}
use plugchain_sdk_go.DecCoin
use plugchain_sdk_go.CoinText.{
  int_string, set_string_base_0, new_int_from_string, span, is_digit, is_dot, amt_of, match_amt,
  dec_amt_of, dec_amt_behind, dec_amt_from, match_dec_amt, coin_of, match_coin, read_amount,
  read_coin, parse_coin, read_dec_coin, parse_dec_coin, coin_string, dec_coin_string,
}
use plugchain_sdk_go.CoinText.Scan.{
  IsSolid, digits-IsSolid, matches_denom-IsSolid, IsVisible-of_IsSolid, trim_left-IsVisible,
  trim_space-IsVisible, span-append, digits_pass, letter_fails,
}

base_0_of_digits :
    (c : ℕ) (cs : List ℕ) → (c == b'0') ≡ false → set_string_base_0 (c ∷ cs) ≡ digits (c ∷ cs)
base_0_of_digits c [] h = refl
base_0_of_digits c (d ∷ cs) h = rw h refl

-- Base 0 reads a decimal numeral as what it is.
set_string_base_0-print : (n : ℕ) → set_string_base_0 (print n) ≡ some n
set_string_base_0-print zero = unfold print in refl
set_string_base_0-print (suc n) =
    let (c, cs, whole, apart) = print-head (suc n) (omega arith) in
    let read : digits (c ∷ cs) ≡ some (suc n) = rw whole at (digits-print (suc n)) in
    rw whole (base_0_of_digits c cs apart ∙ read)

module _ (d : Denom) (m : matches_denom d ≡ true) where
  -- A denomination behind an amount, which the scan of the amount leaves.
  match_coin-denom :
      (amt : List ℕ → Option (List ℕ × List ℕ)) (amount : List ℕ)
      → amt (amount ++ d) ≡ some (amount, d)
      → match_coin amt (amount ++ d) ≡ some (amount, d)
  unfolding match_coin coin_of
  match_coin-denom amt amount e =
      let (c, cs, _, _, solid) = matches_denom-IsSolid d m in
      let trimmed = trim_left-IsVisible d (IsVisible-of_IsSolid d solid) in
      ap coin_of e ∙ (rw (trimmed, m) refl)

  match_amt-digits :
      (c : ℕ) (cs : List ℕ) → All IsDigit (c ∷ cs) → match_amt ((c ∷ cs) ++ d) ≡ some (c ∷ cs, d)
  unfolding match_amt amt_of
  match_amt-digits c cs h =
      let (x, xs, e, letter, _) = matches_denom-IsSolid d m in
      let scanned : span is_digit ((c ∷ cs) ++ x ∷ xs) ≡ (c ∷ cs, x ∷ xs) =
        span-append is_digit (c ∷ cs) x xs (digits_pass (c ∷ cs) h) (letter_fails x letter) in
      let filled : (suc (length cs) == 0) ≡ false = ground arith in
      rw e (ap amt_of scanned ∙ (rw filled refl))

  match_dec_amt-point :
      (c : ℕ) (whole : List ℕ) (p : ℕ) (part : List ℕ)
      → All IsDigit (c ∷ whole)
      → All IsDigit (p ∷ part)
      → match_dec_amt ((c ∷ whole ++ b'.' ∷ p ∷ part) ++ d) ≡ some (c ∷ whole ++ b'.' ∷ p ∷ part, d)
  unfolding match_dec_amt dec_amt_from dec_amt_behind dec_amt_of
  match_dec_amt-point c whole p part before behind =
      let (x, xs, e, letter, _) = matches_denom-IsSolid d m in
      let grouped : (c ∷ whole ++ b'.' ∷ p ∷ part) ++ d ≡ (c ∷ whole) ++ b'.' ∷ (p ∷ part ++ d) =
        append_assoc (c ∷ whole) (b'.' ∷ p ∷ part) d in
      let first : span is_digit ((c ∷ whole) ++ b'.' ∷ (p ∷ part ++ d))
          ≡ (c ∷ whole, b'.' ∷ (p ∷ part ++ d)) =
        span-append is_digit (c ∷ whole) b'.' (p ∷ part ++ d) (digits_pass (c ∷ whole) before)
          refl in
      let no_dot : is_dot p ≡ false = ground arith in
      let second : span is_dot (b'.' ∷ (p ∷ part ++ d)) ≡ (b'.' ∷ [], p ∷ part ++ d) =
        span-append is_dot (b'.' ∷ []) p (part ++ d) (refl, tt) no_dot in
      let third : span is_digit (p ∷ part ++ d) ≡ (p ∷ part, d) = rw e (
        span-append is_digit (p ∷ part) x xs (digits_pass (p ∷ part) behind)
          (letter_fails x letter)) in
      let filled : (suc (length part) == 0) ≡ false = ground arith in
      ap match_dec_amt grouped
      ∙ ap dec_amt_from first
      ∙ ap (dec_amt_behind (c ∷ whole, b'.' ∷ (p ∷ part ++ d))) second
      ∙ ap (dec_amt_of (c ∷ whole, b'.' ∷ (p ∷ part ++ d)) (b'.' ∷ [], p ∷ part ++ d)) third
      ∙ (rw filled refl)

-- A coin whose denomination matches the pattern and whose amount is not negative.
pub record IsWritten (c : Coin) : Type 0 where
  pub pattern_matched : matches_denom c.denom ≡ true
  pub amount : (n : ℕ) × (c.amount ≡ pos n)

-- The text of a coin has no separators.
pub dec_coin_string-IsSolid : (c : Coin) → IsWritten c → All IsSolid (dec_coin_string c)
unfolding dec_coin_string Dec.dec_string
dec_coin_string-IsSolid c w =
    let (n, e) = w.amount in
    let (x, whole, part, body, first, before, behind, places, value) = with_point-HasPoint n in
    let (_, _, _, _, solid) = matches_denom-IsSolid c.denom w.pattern_matched in
    let point : IsSolid b'.' = (refl, refl) in
    let amount : All IsSolid (x ∷ whole ++ b'.' ∷ part) =
      All-append _ (x ∷ whole) (b'.' ∷ part) (digits-IsSolid (x ∷ whole) (first, before))
        (point, digits-IsSolid part behind) in
    rw (e, body) (All-append _ (x ∷ whole ++ b'.' ∷ part) c.denom amount solid)

pub coin_string-IsSolid : (c : Coin) → IsWritten c → All IsSolid (coin_string c)
unfolding coin_string int_string
coin_string-IsSolid c w =
    let (n, e) = w.amount in
    let (_, _, _, _, solid) = matches_denom-IsSolid c.denom w.pattern_matched in
    rw e (All-append _ (print n) c.denom (digits-IsSolid (print n) (print-IsDigit n)) solid)

trimmed : (s : List ℕ) → All IsSolid s → trim_space s ≡ s
trimmed s h = trim_space-IsVisible s (IsVisible-of_IsSolid s h)

abbrev coin : Denom → ℕ → Coin
coin d n = record { denom = d; amount = pos n }

filled_part :
    (part : List ℕ) → length part ≡ Dec.precision → (p : ℕ) × (ps : List ℕ) × (part ≡ p ∷ ps)
filled_part [] h = absurd (omega (arith, h))
filled_part (p ∷ ps) h = (p, ps, refl)

not_negative : (k : ℕ) → Int.is_negative (pos k) ≡ false
unfolding Int.is_negative
not_negative zero = refl
not_negative (suc k) = refl

module _ (d : Denom) (m : matches_denom d ≡ true) (n : ℕ) where
  dec_coin_matched :
      match_coin match_dec_amt (dec_coin_string (coin d n)) ≡ some (Dec.dec_string (pos n), d)
  unfolding dec_coin_string Dec.dec_string
  dec_coin_matched =
      let (x, whole, part, body, first, before, behind, places, value) = with_point-HasPoint n in
      let (p, ps, e) = filled_part part places in
      let digits_behind : All IsDigit (p ∷ ps) = rw e at behind in
      rw (body, e)
        (match_coin-denom d m match_dec_amt (x ∷ whole ++ b'.' ∷ p ∷ ps)
          (match_dec_amt-point d m x whole p ps (first, before) digits_behind))

  dec_coin_read : read_dec_coin (some (Dec.dec_string (pos n), d)) ≡ ok (coin d n)
  unfolding read_dec_coin validate_denom must_validate_denom DecCoin.new_dec_coin_from_dec
  dec_coin_read = rw (new_dec_from_str-dec_string (pos n), m) refl

  coin_matched : match_coin match_amt (coin_string (coin d n)) ≡ some (print n, d)
  unfolding coin_string int_string
  coin_matched =
      let (c, cs, e) = print-cons n in
      let all_digits : All IsDigit (c ∷ cs) = rw e at (print-IsDigit n) in
      rw e (match_coin-denom d m match_amt (c ∷ cs) (match_amt-digits d m c cs all_digits))

  coin_read : too_long (pos n) ≡ false → read_coin (some (print n, d)) ≡ ok (coin d n)
  unfolding read_coin read_amount new_int_from_string validate_denom Coin.new_coin Coin.validate
  coin_read h = rw (set_string_base_0-print n, h, m, not_negative n) refl

coin_eta : (c : Coin) (n : ℕ) → c.amount ≡ pos n → coin c.denom n ≡ c
coin_eta c n e = ap (λ a. record { denom = c.denom; amount = a }) (sym e)

-- A decimal coin is read back from its text.
pub parse_dec_coin-dec_coin_string :
    (c : Coin) → IsWritten c → parse_dec_coin (dec_coin_string c) ≡ ok c
unfolding parse_dec_coin
parse_dec_coin-dec_coin_string c w =
    let (n, e) = w.amount in
    let solid = trimmed (dec_coin_string c) (dec_coin_string-IsSolid c w) in
    let read : read_dec_coin (match_coin match_dec_amt (dec_coin_string (coin c.denom n)))
        ≡ ok (coin c.denom n) =
      ap read_dec_coin (dec_coin_matched c.denom w.pattern_matched n)
      ∙ dec_coin_read c.denom w.pattern_matched n in
    ap (λ s. read_dec_coin (match_coin match_dec_amt s)) solid
    ∙ subst (λ x. read_dec_coin (match_coin match_dec_amt (dec_coin_string x)) ≡ ok x)
        (coin_eta c n e) read

-- A coin in range is read back from its text.
pub parse_coin-coin_string :
    (c : Coin) → IsWritten c → too_long c.amount ≡ false → parse_coin (coin_string c) ≡ ok c
unfolding parse_coin
parse_coin-coin_string c w h =
    let (n, e) = w.amount in
    let solid = trimmed (coin_string c) (coin_string-IsSolid c w) in
    let short : too_long (pos n) ≡ false = rw e at h in
    let read : read_coin (match_coin match_amt (coin_string (coin c.denom n)))
        ≡ ok (coin c.denom n) =
      ap read_coin (coin_matched c.denom w.pattern_matched n)
      ∙ coin_read c.denom w.pattern_matched n short in
    ap (λ s. read_coin (match_coin match_amt s)) solid
    ∙ subst (λ x. read_coin (match_coin match_amt (coin_string x)) ≡ ok x) (coin_eta c n e) read
