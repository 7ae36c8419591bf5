-- ===== src/Dec/Text.antt =====
-- `Dec.String` of types/dec.go against `NewDecFromStr`.
use plugchain_sdk_go.Prelude.{
  ℕ, zero, suc, ◌-◌, ◌<◌, ◌≡◌, refl, sym, ap, ◌∙◌, arith, inl, inr, Bool, true, false, Bool-cases,
  leb, ◌==◌, if◌then◌else◌, List, [], ◌∷◌, ◌++◌, append-nil, length, length-append, length-drop,
  length-replicate, take, drop, take-append-drop, replicate, All, All-append, some, ok, ◌>>=◌,
}
use plugchain_sdk_go.Prelude.Integer
use plugchain_sdk_go.Prelude.Integer.{ℤ, pos, negsuc, mag, is_neg}
use plugchain_sdk_go.Prelude.Text.{
  digits_from, digits, print, split_on, IsDigit, digits-print, print-IsDigit, print-cons,
  split_on-none, split_on-append,
}
use plugchain_sdk_go.Dec.{Decimal, precision, with_point, dec_string}
use plugchain_sdk_go.Dec.Parse.{
  set_string, without_sign, combine, decimal_of, scaled, new_dec_from_str,
}

digit_apart :
    (c : ℕ) → IsDigit c → ((c == b'.') ≡ false) × ((c == b'-') ≡ false) × ((c == b'+') ≡ false)
digit_apart c h = ground arith

no_point : (s : List ℕ) → All IsDigit s → All (λ c. (c == b'.') ≡ false) s
no_point [] h = tt
no_point (c ∷ s) (p, h) = ((digit_apart c p).0, no_point s h)

digits_from-zeros : (n : ℕ) (s : List ℕ) → digits_from 0 (replicate n b'0' ++ s) ≡ digits_from 0 s
digits_from-zeros zero s = refl
digits_from-zeros (suc n) s = digits_from-zeros n s

All-take : (n : ℕ) (s : List ℕ) → All IsDigit s → All IsDigit (take n s)
All-take zero s h = tt
All-take (suc n) [] h = tt
All-take (suc n) (c ∷ s) (p, h) = (p, All-take n s h)

All-drop : (n : ℕ) (s : List ℕ) → All IsDigit s → All IsDigit (drop n s)
All-drop zero s h = h
All-drop (suc n) [] h = tt
All-drop (suc n) (c ∷ s) (p, h) = All-drop n s h

All-zeros : (n : ℕ) → All IsDigit (replicate n b'0')
All-zeros zero = tt
All-zeros (suc n) = (omega arith, All-zeros n)

-- A number written with eighteen digits behind the point, and one before it at least.
module _ (c : ℕ) (whole part : List ℕ) (n : ℕ) (first : IsDigit c) (before : All IsDigit whole)
    (behind : All IsDigit part) (places : length part ≡ precision)
    (value : digits (c ∷ whole ++ part) ≡ some n) where
  body : List ℕ
  body = c ∷ whole ++ b'.' ∷ part

  split_body : split_on b'.' body ≡ (c ∷ whole, part ∷ [])
  unfolding body
  split_body =
      split_on-append b'.' (c ∷ whole) part ((digit_apart c first).0, no_point whole before)
      ∙ rw (split_on-none b'.' part (no_point part behind))

  set_string_body : set_string (c ∷ whole ++ part) ≡ some (pos n)
  set_string_body = let (_, minus, plus) = digit_apart c first in rw (minus, plus, value)

  scaled_body :
      (neg : Bool)
      → scaled neg (c ∷ whole ++ part) precision ≡ ok (if neg then Integer.neg (pos n) else pos n)
  unfolding scaled
  scaled_body neg =
      let full = append-nil (c ∷ whole ++ part) in
      ap (λ s. decimal_of neg (set_string s)) full ∙ ap (decimal_of neg) set_string_body

  read_body :
      (neg : Bool)
      → (combine (split_on b'.' body) >>= λ combined. scaled neg combined.0 combined.1)
        ≡ ok (if neg then Integer.neg (pos n) else pos n)
  unfolding combine
  read_body neg =
      let some_part : (length part == 0) ≡ false = rw places refl in
      let some_whole : (length (c ∷ whole) == 0) ≡ false = ground arith in
      rw (split_body, some_part, some_whole, places) (scaled_body neg)

  body-length : (length body == 0) ≡ false
  unfolding body
  body-length = ground arith

  body_sign : without_sign body ≡ (false, body)
  unfolding body
  body_sign = rw ((digit_apart c first).1)

  new_dec_from_str-body : new_dec_from_str body ≡ ok (pos n)
  unfolding new_dec_from_str
  new_dec_from_str-body = rw (body-length, body_sign, body-length) (read_body false)

  new_dec_from_str_negative : new_dec_from_str (b'-' ∷ body) ≡ ok (Integer.neg (pos n))
  unfolding new_dec_from_str
  new_dec_from_str_negative =
      let longer : (suc (length body) == 0) ≡ false = ground arith in
      rw (longer, body-length) (read_body true)

-- The two ways to place the point, with their parts.
abbrev pub HasPoint : List ℕ → ℕ → Type 0
HasPoint s n =
    (c : ℕ) × (whole : List ℕ) × (part : List ℕ) × (s ≡ c ∷ whole ++ b'.' ∷ part)
    × IsDigit c
    × All IsDigit whole
    × All IsDigit part
    × (length part ≡ precision)
    × (digits (c ∷ whole ++ part) ≡ some n)

cons_of_take :
    (k : ℕ) (s : List ℕ) → 0 < k → 0 < length s → (c : ℕ) × (r : List ℕ) × (take k s ≡ c ∷ r)
cons_of_take zero s h g = absurd (omega arith)
cons_of_take (suc k) [] h g = absurd (omega arith)
cons_of_take (suc k) (c ∷ s) h g = (c, take k s, refl)

short-HasPoint :
    (n : ℕ) → leb (length (print n)) precision ≡ true → HasPoint (with_point (print n)) n
unfolding with_point
short-HasPoint n short =
    let zeros : List ℕ = replicate (precision - length (print n)) b'0' in
    let (c, cs, e) = print-cons n in
    let value : digits_from 0 (print n) ≡ some n = rw e (rw e at (digits-print n)) in
    let size : length zeros ≡ precision - length (print n) = length-replicate _ b'0' in
    let places : length (zeros ++ print n) ≡ precision =
      ground (arith, length-append zeros (print n)) in
    (
      b'0',
      [],
      zeros ++ print n,
      rw short refl,
      omega arith,
      tt,
      All-append _ zeros (print n) (All-zeros _) (print-IsDigit n),
      places,
      digits_from-zeros (precision - length (print n)) (print n) ∙ value,
    )

long-HasPoint :
    (n : ℕ) → leb (length (print n)) precision ≡ false → HasPoint (with_point (print n)) n
unfolding with_point
long-HasPoint n long =
    let k : ℕ = length (print n) - precision in
    let more : precision < length (print n) = ground arith in
    let (c, r, e) = cons_of_take k (print n) (omega arith) (omega arith) in
    let (first, before) = (rw e at (All-take k (print n) (print-IsDigit n))) in
    let part = drop k (print n) in
    let joined : c ∷ r ++ part ≡ print n =
      ap (λ t. t ++ part) (sym e) ∙ take-append-drop k (print n) in
    (
      c,
      r,
      part,
      rw (long, e) refl,
      first,
      before,
      All-drop k (print n) (print-IsDigit n),
      omega (arith, length-drop k (print n)),
      ap digits joined ∙ digits-print n,
    )

pub with_point-HasPoint : (n : ℕ) → HasPoint (with_point (print n)) n
with_point-HasPoint n = elim (Bool-cases (leb (length (print n)) precision)) [
  | inl short ↦ short-HasPoint n short
  | inr long ↦ long-HasPoint n long
]

-- The string of a decimal is read back as that decimal, whatever its sign and its size.
pub new_dec_from_str-dec_string : (d : Decimal) → new_dec_from_str (dec_string d) ≡ ok d
unfolding dec_string body
new_dec_from_str-dec_string (pos n) =
    let (c, whole, part, e, first, before, behind, places, value) = with_point-HasPoint n in
    rw e (new_dec_from_str-body c whole part n first before behind places value)
new_dec_from_str-dec_string (negsuc n) =
    let (c, whole, part, e, first, before, behind, places, value) = with_point-HasPoint (suc n) in
    let opposite : Integer.neg (pos (suc n)) ≡ negsuc n = unfold Integer.neg in refl in
    rw e (
      new_dec_from_str_negative c whole part (suc n) first before behind places value
      ∙ ap (λ i. ok i) opposite)
