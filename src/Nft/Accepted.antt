-- ===== src/Nft/Accepted.antt =====
-- What the checks of modules/nft/types.go accept.
use plugchain_sdk_go.Prelude.{
  ℕ, ◌≤◌, ◌≡◌, ◌↔◌, ◌⊎◌, inl, inr, refl, sym, ◌∙◌, arith, Bool, true, false, not, ◌||◌, and-true,
  or-false, Bool-cases, ltb, ◌==◌, List, [], ◌∷◌, ◌++◌, length, All, Result, ok, err, panic, Error,
  ◌>>◌, err_if, err_if-passed, missing_address, invalid_nft_id, invalid_class, keyword, invalid_uri,
}
use plugchain_sdk_go.Nft.{
  MsgIssueNft, min_class_len, max_class_len, max_nft_uri_len, is_lower, is_lower_or_digit,
  all_lower_or_digit, regex_alpha_numeric, regex_alpha_top, starts_with, regexp_keyword, regexp_uri,
  validate_nft_id, validate_keywords, validate_class_id, validate_nft_uri, check_owner,
  validate_issue_nft,
}

-- A string that starts with another.
abbrev pub Starts : List ℕ → List ℕ → Type 0
Starts p s = (rest : List ℕ) × (s ≡ p ++ rest)

starts_with-Starts : (p s : List ℕ) → starts_with p s ≡ true → Starts p s
starts_with-Starts [] s h = (s, refl)
starts_with-Starts (p ∷ ps) [] h = cc
starts_with-Starts (p ∷ ps) (c ∷ cs) h =
    let (here, there) = and-true (p == c) (starts_with ps cs) h in
    let (rest, e) = starts_with-Starts ps cs there in
    let same : p ≡ c = ground (arith, here) in (rest, rw (same, e) refl)

Starts-starts_with : (p s : List ℕ) → Starts p s → starts_with p s ≡ true
Starts-starts_with p s (rest, e) = rw e (again p rest)
  where
    again : (p rest : List ℕ) → starts_with p (p ++ rest) ≡ true
    again [] rest = refl
    again (c ∷ cs) rest = let h = again cs rest in ground arith

-- The words that the patterns name.
abbrev http : List ℕ
http = b'h' ∷ b't' ∷ b't' ∷ b'p' ∷ b':' ∷ b'/' ∷ b'/' ∷ []

abbrev https : List ℕ
https = b'h' ∷ b't' ∷ b't' ∷ b'p' ∷ b's' ∷ b':' ∷ b'/' ∷ b'/' ∷ []

abbrev ibc_word : List ℕ
ibc_word = b'i' ∷ b'b' ∷ b'c' ∷ []

abbrev plug_word : List ℕ
plug_word = b'p' ∷ b'l' ∷ b'u' ∷ b'g' ∷ []

-- Three to sixty-four lower case letters and digits, with a letter first.
pub record IsNftId (s : List ℕ) : Type 0 where
  pub long : 3 ≤ length s
  pub short : length s ≤ 64
  pub letter_first : (c : ℕ) × (cs : List ℕ) × (s ≡ c ∷ cs) × (is_lower c ≡ true)
  pub plain : All (λ c. is_lower_or_digit c ≡ true) s

-- Such a string that does not start with "ibc" or "plug".
pub record IsClassId (s : List ℕ) : Type 0 where
  pub is_id : IsNftId s
  pub not_ibc : ¬ Starts ibc_word s
  pub not_plug : ¬ Starts plug_word s

-- At most 256 bytes that start with "http://" or "https://".
pub record IsUri (s : List ℕ) : Type 0 where
  pub short : length s ≤ 256
  pub scheme : Starts http s ⊎ Starts https s

all_lower_or_digit-All :
    (s : List ℕ) → all_lower_or_digit s ≡ true → All (λ c. is_lower_or_digit c ≡ true) s
all_lower_or_digit-All [] h = tt
all_lower_or_digit-All (c ∷ cs) h =
    let (here, there) = and-true (is_lower_or_digit c) (all_lower_or_digit cs) h in
    (here, all_lower_or_digit-All cs there)

All-all_lower_or_digit :
    (s : List ℕ) → All (λ c. is_lower_or_digit c ≡ true) s → all_lower_or_digit s ≡ true
All-all_lower_or_digit [] h = refl
All-all_lower_or_digit (c ∷ cs) (here, there) = rw (here, All-all_lower_or_digit cs there) refl

tested-IsNftId :
    (s : List ℕ)
    → (ltb (length s) min_class_len || ltb max_class_len (length s)) ≡ false
    → (not (regex_alpha_numeric s) || not (regex_alpha_top s)) ≡ false
    → IsNftId s
unfolding regex_alpha_numeric regex_alpha_top
tested-IsNftId [] h k = absurd (cc)
tested-IsNftId (c ∷ cs) h k =
    let all : all_lower_or_digit (c ∷ cs) ≡ true = ground (arith, k) in
    let first : is_lower c ≡ true = ground (arith, k) in
    record {
      long = ground (arith, h);
      short = ground (arith, h);
      letter_first = (c, cs, refl, first);
      plain = all_lower_or_digit-All (c ∷ cs) all;
    }

IsNftId-in_length :
    (s : List ℕ)
    → IsNftId s
    → (ltb (length s) min_class_len || ltb max_class_len (length s)) ≡ false
IsNftId-in_length s h = let long = h.long in let short = h.short in ground arith

IsNftId-spelt :
    (s : List ℕ) → IsNftId s → (not (regex_alpha_numeric s) || not (regex_alpha_top s)) ≡ false
unfolding regex_alpha_numeric regex_alpha_top
IsNftId-spelt [] h = let (c, cs, e, first) = h.letter_first in cc
IsNftId-spelt (c ∷ cs) h =
    let (d, ds, e, first) = h.letter_first in
    let same : c ≡ d = cc in
    let lower : is_lower c ≡ true = rw same first in
    let (digit, rest) = h.plain in rw (digit, All-all_lower_or_digit cs rest, lower) (ground arith)

true_ne_false : true ≡ false → ⊥
true_ne_false e = cc

fails_to_start : (p s : List ℕ) → ¬ Starts p s → starts_with p s ≡ false
fails_to_start p s h = elim (Bool-cases (starts_with p s)) [
  | inl t ↦ absurd (h (starts_with-Starts p s t))
  | inr f ↦ f
]

true_of_not : (b : Bool) → not b ≡ false → b ≡ true
true_of_not true h = refl
true_of_not false h = cc

err_if-ok : (b : Bool) (e : Error) → err_if b e ≡ ok tt → b ≡ false
err_if-ok true e h = cc
err_if-ok false e h = refl

passed_check :
    (check rest : Result (Unit {0})) → (check >> rest) ≡ ok tt → (check ≡ ok tt) × (rest ≡ ok tt)
passed_check (ok tt) rest h = (refl, h)
passed_check (err e) rest h = cc
passed_check (panic p) rest h = cc

either_scheme :
    (s : List ℕ)
    → (starts_with http s || starts_with https s) ≡ true
    → Starts http s ⊎ Starts https s
either_scheme s h = elim (Bool-cases (starts_with http s)) [
  | inl t ↦ inl (starts_with-Starts http s t)
  | inr f ↦
      let t : starts_with https s ≡ true = ground (arith, h, f) in
      inr (starts_with-Starts https s t)
]

scheme_either :
    (s : List ℕ)
    → Starts http s ⊎ Starts https s
    → (starts_with http s || starts_with https s) ≡ true
scheme_either s (inl starts) = rw (Starts-starts_with http s starts) refl
scheme_either s (inr starts) = let t = Starts-starts_with https s starts in ground (arith, t)

validate_nft_id_iff : (s : List ℕ) → (validate_nft_id s ≡ ok tt) ↔ IsNftId s
unfolding validate_nft_id
validate_nft_id_iff s = (
  λ h.
      let (sized, h1) =
        err_if-passed (ltb (length s) min_class_len || ltb max_class_len (length s)) invalid_nft_id
          _ h in
      tested-IsNftId s sized (err_if-ok _ invalid_nft_id h1),
  λ i. rw (IsNftId-in_length s i, IsNftId-spelt s i) refl,
)

validate_class_id_iff : (s : List ℕ) → (validate_class_id s ≡ ok tt) ↔ IsClassId s
unfolding validate_class_id validate_keywords regexp_keyword
validate_class_id_iff s = (
  λ h.
      let (sized, h1) =
        err_if-passed (ltb (length s) min_class_len || ltb max_class_len (length s)) invalid_class _
          h in
      let (spelt, h2) =
        err_if-passed (not (regex_alpha_numeric s) || not (regex_alpha_top s)) invalid_class _ h1 in
      let (ibc, plug) =
        or-false (starts_with ibc_word s) (starts_with plug_word s) (err_if-ok _ keyword h2) in
      record {
        is_id = tested-IsNftId s sized spelt;
        not_ibc =
            λ starts. absurd (true_ne_false (sym (Starts-starts_with ibc_word s starts) ∙ ibc));
        not_plug =
            λ starts. absurd (true_ne_false (sym (Starts-starts_with plug_word s starts) ∙ plug));
      },
  λ i.
      let ibc = fails_to_start ibc_word s i.not_ibc in
      let plug = fails_to_start plug_word s i.not_plug in
      rw (IsNftId-in_length s i.is_id, IsNftId-spelt s i.is_id, ibc, plug) refl,
)

validate_nft_uri_iff : (s : List ℕ) → (validate_nft_uri s ≡ ok tt) ↔ IsUri s
unfolding validate_nft_uri regexp_uri
validate_nft_uri_iff s = (
  λ h.
      let (sized, h1) = err_if-passed (ltb max_nft_uri_len (length s)) invalid_uri _ h in
      let matched = true_of_not _ (err_if-ok _ invalid_uri h1) in
      record { short = ground (arith, sized); scheme = either_scheme s matched },
  λ i.
      let short : ltb max_nft_uri_len (length s) ≡ false = let h = i.short in ground arith in
      rw (short, scheme_either s i.scheme) refl,
)

-- What `ValidateBasic` of `MsgIssueNFT` asks for.
pub record IsIssuable (validate_acc_address : List ℕ → Result (Unit {0})) (m : MsgIssueNft)
    : Type 0 where
  pub owned : (length m.owner == 0) ≡ false
  pub owner : validate_acc_address m.owner ≡ ok tt
  pub recipient : validate_acc_address m.recipient ≡ ok tt
  pub class_id : IsClassId m.class_id
  pub id : IsNftId m.id
  pub uri : IsUri m.uri

-- ValidateBasic of MsgIssueNFT returns nil for exactly the messages whose owner is there and
-- is, as the recipient, a valid address, whose token has an identifier of 3 to 64 lower case
-- letters and digits with a letter first, whose class has such an identifier that starts
-- neither with ibc nor with plug, and whose URI has at most 256 bytes and starts with http://
-- or https://.
pub validate_issue_nft_iff :
    (validate_acc_address : List ℕ → Result (Unit {0})) (parse_address : List ℕ → Result (List ℕ))
    (m : MsgIssueNft)
    → (validate_issue_nft validate_acc_address parse_address m ≡ ok tt)
      ↔ IsIssuable validate_acc_address m
unfolding validate_issue_nft check_owner
validate_issue_nft_iff validate_acc_address parse_address m = (
  λ h.
      let (checked, h1) = passed_check _ _ h in
      let (owned, owner) = err_if-passed (length m.owner == 0) missing_address _ checked in
      let (recipient, h2) = passed_check (validate_acc_address m.recipient) _ h1 in
      let (class_id, h3) = passed_check (validate_class_id m.class_id) _ h2 in
      let (id, uri) = passed_check (validate_nft_id m.id) _ h3 in
      record {
        owned = owned;
        owner = owner;
        recipient = recipient;
        class_id = (validate_class_id_iff m.class_id).0 class_id;
        id = (validate_nft_id_iff m.id).0 id;
        uri = (validate_nft_uri_iff m.uri).0 uri;
      },
  λ i.
      rw
        (
          i.owned,
          i.owner,
          i.recipient,
          (validate_class_id_iff m.class_id).1 i.class_id,
          (validate_nft_id_iff m.id).1 i.id,
        )
        ((validate_nft_uri_iff m.uri).1 i.uri),
)
