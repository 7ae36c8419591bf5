-- ===== src/Dec/Parse.antt =====
-- `NewDecFromStr` and `MustNewDecFromStr` of types/dec.go, on the bytes of the string.
use plugchain_sdk_go.Prelude.{
  ℕ, suc, ◌-◌, Bool, true, false, ltb, ◌==◌, if◌then◌else◌, List, [], ◌∷◌, ◌++◌, length, replicate,
  Option, none, some, ◌≡◌, refl, arith, inl, inr, Bool-cases, Option-cases, Result, ok, err, panic,
  ◌>>=◌, ◌>>◌, err_if, must, empty_decimal_str, invalid_decimal_length, invalid_decimal_str,
  invalid_precision, set_string_failed,
}
use plugchain_sdk_go.Prelude.Text.{digits, split_on}
use plugchain_sdk_go.Prelude.Integer
use plugchain_sdk_go.Prelude.Integer.{ℤ, pos}
use plugchain_sdk_go.Dec
use plugchain_sdk_go.Dec.{Decimal}

-- A sign may stand before the digits; base 10 allows no underscores.
abbrev pub set_string : List ℕ → Option ℤ
set_string [] = none
set_string (c ∷ cs) =
    if c == b'-'
    then elim (digits cs) [ none ↦ none | some n ↦ some (Integer.neg (pos n)) ]
    else if c == b'+'
    then elim (digits cs) [ none ↦ none | some n ↦ some (pos n) ]
    else elim (digits (c ∷ cs)) [ none ↦ none | some n ↦ some (pos n) ]

-- `if str[0] == '-'`
abbrev pub without_sign : List ℕ → Bool × List ℕ
without_sign [] = (false, [])
without_sign (c ∷ cs) = if c == b'-' then (true, cs) else (false, c ∷ cs)

-- The combined string, and the number of digits behind the point.
unfoldable pub combine : List ℕ × List (List ℕ) → Result (List ℕ × ℕ)
combine (whole, []) = ok (whole, 0)
combine (whole, part ∷ []) = do
  err_if (length part == 0) invalid_decimal_length
  err_if (length whole == 0) invalid_decimal_length
  ok (whole ++ part, length part)
combine (whole, part ∷ next ∷ parts) = err invalid_decimal_str

-- The combined integer, if it could be read, with the sign of the string.
abbrev pub decimal_of : Bool → Option ℤ → Result Decimal
decimal_of neg none = err set_string_failed
decimal_of neg (some i) = ok (if neg then Integer.neg i else i)

-- The part behind the tests on the form, for a string with `len_decs` digits behind the point. It
-- is padded by `%0ns` with zeros to eighteen places.
unfoldable pub scaled : Bool → List ℕ → ℕ → Result Decimal
scaled neg combined len_decs = do
  err_if (ltb Dec.precision len_decs) invalid_precision
  let padded = combined ++ replicate (Dec.precision - len_decs) b'0'
  decimal_of neg (set_string padded)

unfoldable pub new_dec_from_str : List ℕ → Result Decimal
new_dec_from_str str = do
  err_if (length str == 0) empty_decimal_str
  let (neg, rest) = without_sign str
  err_if (length rest == 0) empty_decimal_str
  combined ← combine (split_on b'.' rest)
  scaled neg combined.0 combined.1

unfoldable pub must_new_dec_from_str : List ℕ → Result Decimal
unfolding new_dec_from_str
must_new_dec_from_str s = must (new_dec_from_str s)

suc-not_zero : (n : ℕ) → (suc n == 0) ≡ false
suc-not_zero n = ground arith

abbrev opposite : Decimal → Result Decimal
opposite d = ok (Integer.neg d)

scaled-true : (whole : List ℕ) (n : ℕ) → scaled true whole n ≡ (scaled false whole n >>= opposite)
unfolding scaled
scaled-true whole n = elim (Bool-cases (ltb Dec.precision n)) [
  | inl long ↦ rw long refl
  | inr short ↦ elim (Option-cases (set_string (whole ++ replicate (Dec.precision - n) b'0'))) [
    | inl e ↦ rw (short, e) refl
    | inr (i, e) ↦ rw (short, e) refl
  ]
]

scaled_parts :
    (r : Result (List ℕ × ℕ))
    → (r >>= λ combined. scaled true combined.0 combined.1)
      ≡ ((r >>= λ combined. scaled false combined.0 combined.1) >>= opposite)
scaled_parts (ok (whole, n)) = scaled-true whole n
scaled_parts (err e) = refl
scaled_parts (panic p) = refl

-- A minus sign before a string that is not empty and has no minus sign of its own gives the opposite
-- of what the string gives, or the same error.
pub new_dec_from_str_minus :
    (c : ℕ) (cs : List ℕ)
    → (c == b'-') ≡ false
    → new_dec_from_str (b'-' ∷ c ∷ cs) ≡ (new_dec_from_str (c ∷ cs) >>= λ d. ok (Integer.neg d))
unfolding new_dec_from_str
new_dec_from_str_minus c cs h =
    rw (h, suc-not_zero (length cs), suc-not_zero (suc (length cs)))
      (scaled_parts (combine (split_on b'.' (c ∷ cs))))
