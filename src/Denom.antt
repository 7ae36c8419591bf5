-- ===== src/Denom.antt =====
-- Denominations of types/coin.go: Go strings, as their bytes, with `strings.Compare`,
-- `strings.ToLower` and the pattern that a denomination must match.
pub mod Order
use Prim.Native.Nat.{compare, Ordering}
use plugchain_sdk_go.Prelude.{
  ℕ, zero, suc, ◌+◌, ◌≤◌, ◌<◌, ◌≡◌, refl, Bool, true, false, not, ◌&&◌, ◌||◌, ltb, leb, ◌==◌,
  if◌then◌else◌, List, [], ◌∷◌, map, length, Result, ok, err_if, must, invalid_denom,
}

abbrev pub Denom : Type 0
Denom = List ℕ

-- `strings.Compare`: bytewise, a prefix first.
unfoldable pub compare_denom : Denom → Denom → Ordering
compare_denom [] [] = Ordering.eq
compare_denom [] (_ ∷ _) = Ordering.lt
compare_denom (_ ∷ _) [] = Ordering.gt
compare_denom (x ∷ xs) (y ∷ ys) = elim (compare x y) [
  | Ordering.lt ↦ Ordering.lt
  | Ordering.gt ↦ Ordering.gt
  | Ordering.eq ↦ compare_denom xs ys
]

abbrev pub is_lt : Ordering → Bool
is_lt Ordering.lt = true
is_lt _ = false

abbrev pub is_eq : Ordering → Bool
is_eq Ordering.eq = true
is_eq _ = false

-- Go's `<` and `==` on strings.
abbrev pub denom_lt : Denom → Denom → Bool
denom_lt a b = is_lt (compare_denom a b)

abbrev pub denom_eq : Denom → Denom → Bool
denom_eq a b = is_eq (compare_denom a b)

-- `strings.ToLower` on ASCII: other bytes are left as they are. Where Go would change such a byte, in a
-- coin behind the first of a set, `IsValid` refuses a denomination that the model's test lets pass.
abbrev pub byte_to_lower : ℕ → ℕ
byte_to_lower c = if leb b'A' c && leb c b'Z' then c + 32 else c

abbrev pub to_lower : Denom → Denom
to_lower = map byte_to_lower

abbrev pub is_letter : ℕ → Bool
is_letter c = leb b'a' c && leb c b'z' || leb b'A' c && leb c b'Z'

abbrev pub is_denom_byte : ℕ → Bool
is_denom_byte c = is_letter c || leb b'0' c && leb c b'9' || c == b'/' || c == b':' || c == b'-'

abbrev pub all_denom_bytes : List ℕ → Bool
all_denom_bytes [] = true
all_denom_bytes (c ∷ cs) = is_denom_byte c && all_denom_bytes cs

-- `reDnm`: a letter, then 2 to 127 bytes of the class `[a-zA-Z0-9/:-]`.
unfoldable pub matches_denom : Denom → Bool
matches_denom [] = false
matches_denom (c ∷ cs) =
    is_letter c && all_denom_bytes cs && leb 2 (length cs) && leb (length cs) 127

unfoldable pub validate_denom : Denom → Result (Unit {0})
unfolding matches_denom
validate_denom denom = err_if (not (matches_denom denom)) invalid_denom

unfoldable pub must_validate_denom : Denom → Result (Unit {0})
unfolding validate_denom
must_validate_denom denom = must (validate_denom denom)
