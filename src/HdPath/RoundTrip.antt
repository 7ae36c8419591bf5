-- ===== src/HdPath/RoundTrip.antt =====
-- `BIP44Params.String` of crypto/hd/hdpath.go against `NewParamsFromPath`.
use plugchain_sdk_go.Prelude.{
  ℕ, ◌^◌, ◌<◌, ◌≡◌, refl, ap, sym, ◌∙◌, Bool, true, false, not, ◌||◌, ltb, ◌==◌, if◌then◌else◌,
  arith, List, [], ◌∷◌, ◌++◌, All, All-append, Bool-cases, inl, inr, ok, ◌>>◌, err_if, lt→ltb,
  invalid_change,
}
use plugchain_sdk_go.Prelude.Text.{
  print, split_on, IsDigit, digits-print, print-IsDigit, split_on-none, split_on-append,
}
use plugchain_sdk_go.HdPath.{
  Bip44Params, in_uint32, parse_uint32, trim_apostrophe, hardened_int, is_hardened, is_bip44,
  params_of_fields, five_fields, new_params_from_path, path_string,
}

-- What every field of the structure promises.
abbrev pub IsUint32 : ℕ → Type 0
IsUint32 n = n < 2 ^ 32

pub record IsBip44 (p : Bip44Params) : Type 0 where
  pub purpose : p.purpose ≡ 44
  pub coin_type : IsUint32 p.coin_type
  pub account : IsUint32 p.account
  pub address_index : IsUint32 p.address_index

unfoldable pub apostrophe : List ℕ → List ℕ
apostrophe s = s ++ b'\'' ∷ []

pub trim_apostrophe_suffix : (s : List ℕ) → trim_apostrophe (apostrophe s) ≡ s
unfolding apostrophe
trim_apostrophe_suffix [] = refl
trim_apostrophe_suffix (c ∷ []) = refl
trim_apostrophe_suffix (c ∷ d ∷ s) = ap (λ r. c ∷ r) (trim_apostrophe_suffix (d ∷ s))

pub is_hardened_suffix : (s : List ℕ) → is_hardened (apostrophe s) ≡ true
unfolding is_hardened apostrophe
is_hardened_suffix [] = refl
is_hardened_suffix (c ∷ []) = refl
is_hardened_suffix (c ∷ d ∷ s) = is_hardened_suffix (d ∷ s)

digit_apart : (c : ℕ) → IsDigit c → ((c == b'\'') ≡ false) × ((c == b'/') ≡ false)
digit_apart c h = ground arith

pub plain_digits : (s : List ℕ) → All IsDigit s → (trim_apostrophe s ≡ s) × (is_hardened s ≡ false)
unfolding is_hardened
plain_digits [] h = (refl, refl)
plain_digits (c ∷ []) (p, _) = let e = (digit_apart c p).0 in (rw e, e)
plain_digits (c ∷ d ∷ s) (p, h) = let (t, k) = plain_digits (d ∷ s) h in (ap (λ r. c ∷ r) t, k)

no_slash : (s : List ℕ) → All IsDigit s → All (λ c. (c == b'/') ≡ false) s
no_slash [] h = tt
no_slash (c ∷ s) (p, h) = ((digit_apart c p).1, no_slash s h)

pub parse_uint32-print : (n : ℕ) → IsUint32 n → parse_uint32 (print n) ≡ ok n
parse_uint32-print n h =
    let fits = lt→ltb n (2 ^ 32) h in ap in_uint32 (digits-print n) ∙ rw fits refl

module _ (n : ℕ) (h : IsUint32 n) where
  hardened_int_suffix : hardened_int (apostrophe (print n)) ≡ ok n
  unfolding hardened_int
  hardened_int_suffix = rw (trim_apostrophe_suffix (print n)) (parse_uint32-print n h)

  hardened_int-print : hardened_int (print n) ≡ ok n
  unfolding hardened_int
  hardened_int-print = rw ((plain_digits (print n) (print-IsDigit n)).0) (parse_uint32-print n h)

no_slash_suffix : (n : ℕ) → All (λ c. (c == b'/') ≡ false) (apostrophe (print n))
unfolding apostrophe
no_slash_suffix n =
    All-append _ (print n) (b'\'' ∷ []) (no_slash (print n) (print-IsDigit n)) (refl, tt)

abbrev pub change_field : Bool → List ℕ
change_field change = (if change then b'1' else b'0') ∷ []

pub split_on-path_string :
    (p : Bip44Params)
    → split_on b'/' (path_string p) ≡ (
      apostrophe (print p.purpose),
      apostrophe (print p.coin_type)
          ∷ apostrophe (print p.account)
          ∷ change_field p.change
          ∷ print p.address_index
          ∷ [],
    )
unfolding path_string apostrophe
split_on-path_string p =
    let change_ok : All (λ c. (c == b'/') ≡ false) (change_field p.change) =
      elim (Bool-cases p.change) [ inl t ↦ rw t (refl, tt) | inr t ↦ rw t (refl, tt) ] in
    rw (
      split_on-append b'/' (print p.purpose ++ b'\'' ∷ []) _ (no_slash_suffix p.purpose),
      split_on-append b'/' (print p.coin_type ++ b'\'' ∷ []) _ (no_slash_suffix p.coin_type),
      split_on-append b'/' (print p.account ++ b'\'' ∷ []) _ (no_slash_suffix p.account),
      split_on-append b'/' (change_field p.change) (print p.address_index) change_ok,
      split_on-none b'/' (print p.address_index) (no_slash _ (print-IsDigit p.address_index)),
    )

change_field_lem :
    (change : Bool) → hardened_int (change_field change) ≡ ok (if change then 1 else 0)
unfolding hardened_int
change_field_lem true = refl
change_field_lem false = refl

change_field_plain : (change : Bool) → is_hardened (change_field change) ≡ false
unfolding is_hardened
change_field_plain true = refl
change_field_plain false = refl

purpose_field : is_bip44 (apostrophe (print 44)) ≡ true
unfolding apostrophe print
purpose_field = refl

-- The test of the change field, and the Boolean that the structure keeps of it.
change_kept :
    (p : Bip44Params) (change : Bool)
    → p.change ≡ change
    → (let x : ℕ = if change then 1 else 0 in
        (err_if (not (x == 0 || x == 1)) invalid_change
          >> ok (record {
            purpose = p.purpose;
            coin_type = p.coin_type;
            account = p.account;
            change = ltb 0 x;
            address_index = p.address_index;
          }))
        ≡ ok p)
change_kept p true e =
    ap
      (λ c. ok (record {
        purpose = p.purpose;
        coin_type = p.coin_type;
        account = p.account;
        change = c;
        address_index = p.address_index;
      }))
      (sym e)
change_kept p false e =
    ap
      (λ c. ok (record {
        purpose = p.purpose;
        coin_type = p.coin_type;
        account = p.account;
        change = c;
        address_index = p.address_index;
      }))
      (sym e)

-- Every BIP 44 path is read back from the string that it is printed as.
pub new_params_from_path-path_string :
    (p : Bip44Params) → IsBip44 p → new_params_from_path (path_string p) ≡ ok p
unfolding new_params_from_path params_of_fields
new_params_from_path-path_string p h =
    let purpose : IsUint32 p.purpose = rw h.purpose (omega arith) in
    let bip44 : is_bip44 (apostrophe (print p.purpose)) ≡ true = rw h.purpose purpose_field in
    ap five_fields (split_on-path_string p)
    ∙ rw
        (
          hardened_int_suffix p.purpose purpose,
          hardened_int_suffix p.coin_type h.coin_type,
          hardened_int_suffix p.account h.account,
          change_field_lem p.change,
          hardened_int-print p.address_index h.address_index,
          bip44,
          is_hardened_suffix (print p.coin_type),
          is_hardened_suffix (print p.account),
          change_field_plain p.change,
          (plain_digits (print p.address_index) (print-IsDigit p.address_index)).1,
        )
        (change_kept p p.change refl)
