-- ===== src/UnknownFields/Inside.antt =====
-- What codec/unknownproto/unknown_fields.go has checked of a message that it accepts, and of all the
-- messages inside.
use plugchain_sdk_go.Prelude.{
  ℕ, ◌≡◌, refl, sym, ◌∙◌, ◌⊎◌, inl, inr, Bool, true, false, ◌||◌, if-true, if-false, Bool-cases,
  List, ◌∷◌, take, drop, Option, none, some, ok,
}
use plugchain_sdk_go.Denom.{denom_eq}
use plugchain_sdk_go.UnknownFields.{
  Field, Wire, Verdict, passed, rejected, crashed, out_of_fuel, ◌>>=◌, join, check_field, any_name,
  field_of, can_encode_type, is_critical, check_message, check_named, check_any, check_typed,
}

-- A field is allowed to stand in a message: its type knows it with this wire type, or it is not critical,
-- such fields are allowed, and the flag reports it.
abbrev pub IsKnown : Bool → List Field → ℕ → ℕ → Bool → Type 0
IsKnown allow fields t w flag =
    ((field : Field) × (field_of fields t ≡ some field)
      × (can_encode_type w field.field_type ≡ true))
    ⊎ ((field_of fields t ≡ none) × (is_critical t ≡ false) × (allow ≡ true) × (flag ≡ true))

pub IsKnown-mono :
    (allow : Bool) (fields : List Field) (t w : ℕ) (f g : Bool)
    → (f ≡ true → g ≡ true)
    → IsKnown allow fields t w f
    → IsKnown allow fields t w g
IsKnown-mono allow fields t w f g up (inl known) = inl known
IsKnown-mono allow fields t w f g up (inr (missing, free, allowed, seen)) =
    inr (missing, free, allowed, up seen)

pub bind-passed :
    (v : Verdict) (next : Bool → Verdict) (r : Bool)
    → (v >>= next) ≡ passed r
    → (f : Bool) × (v ≡ passed f) × (next f ≡ passed r)
bind-passed (passed f) next r h = (f, refl, h)
bind-passed (rejected f e) next r h = cc
bind-passed (crashed p) next r h = cc
bind-passed out_of_fuel next r h = cc

or-left : (a b : Bool) → a ≡ true → (a || b) ≡ true
or-left true b h = refl
or-left false b h = cc

or-right : (a b : Bool) → b ≡ true → (a || b) ≡ true
or-right true b h = refl
or-right false b h = h

pub join-passed :
    (flag : Bool) (v : Verdict) (r : Bool)
    → join flag v ≡ passed r
    → (c : Bool) × (v ≡ passed c) × (flag ≡ true → r ≡ true) × (c ≡ true → r ≡ true)
join-passed flag (passed c) r h =
    let e : (flag || c) ≡ r = cc in
    (c, refl, (λ t. sym e ∙ or-left flag c t), (λ t. sym e ∙ or-right flag c t))
join-passed flag (rejected c e) r h = cc
join-passed flag (crashed p) r h = cc
join-passed flag out_of_fuel r h = cc

pub check_field-IsKnown :
    (allow : Bool) (fields : List Field) (flag : Bool) (t w : ℕ) (o : Option Field) (f : Bool)
    → field_of fields t ≡ o
    → check_field allow o flag t w ≡ passed f
    → IsKnown allow fields t w f × (flag ≡ true → f ≡ true)
unfolding check_field
check_field-IsKnown allow fields flag t w (some field) f e h =
    elim (Bool-cases (can_encode_type w field.field_type)) [
      | inl can ↦
          let same : passed flag ≡ passed f = if-true _ _ _ can h in (inl (field, e, can), λ p. cc)
      | inr cannot ↦ absurd (cc (if-false _ _ _ cannot h))
    ]
check_field-IsKnown allow fields flag t w none f e h = elim (Bool-cases (is_critical t)) [
  | inl critical ↦ absurd (cc (if-true _ _ _ critical h))
  | inr free ↦
      let rest = if-false _ _ _ free h in
      elim (Bool-cases allow) [
        | inl a ↦
            let same : passed true ≡ passed f = if-true _ _ _ a rest in
            let seen : f ≡ true = cc in (inr (e, free, a, seen), λ p. seen)
        | inr a ↦ absurd (cc (if-false _ _ _ a rest))
      ]
]

module _ {M : Type 0} (wire : Wire M) where
  -- The fields of some bytes: the number, the wire type and the content of each.
  pub data Entry : List ℕ → ℕ → ℕ → List ℕ → Type 0 where
    first :
        {bz : List ℕ} {t w : ℕ} {c : List ℕ} (m n : ℕ)
        → wire.consume_tag bz ≡ some (t, w, m)
        → wire.consume_field_value t w (drop m bz) ≡ some n
        → c ≡ take n (drop m bz)
        → Entry bz t w c
    later :
        {bz : List ℕ} {t w : ℕ} {c : List ℕ} (t' w' m n : ℕ)
        → wire.consume_tag bz ≡ some (t', w', m)
        → wire.consume_field_value t' w' (drop m bz) ≡ some n
        → Entry (drop n (drop m bz)) t w c
        → Entry bz t w c

  -- The messages in the content of a field: one of the field's type; or an `Any`, and the message in it.
  pub data Holds (field : Field) : List ℕ → M → List ℕ → Type 0 where
    plain :
        {c : List ℕ} {msg : M} {bz : List ℕ} (o x : ℕ) (name : List ℕ)
        → denom_eq field.type_name any_name ≡ false
        → field.type_name ≡ x ∷ name
        → wire.consume_varint c ≡ some o
        → wire.message_type name ≡ some msg
        → bz ≡ drop o c
        → Holds field c msg bz
    any_itself :
        {c : List ℕ} {msg : M} {bz : List ℕ} (o : ℕ)
        → denom_eq field.type_name any_name ≡ true
        → wire.consume_varint c ≡ some o
        → msg ≡ wire.any_message
        → bz ≡ drop o c
        → Holds field c msg bz
    any_content :
        {c : List ℕ} {msg : M} {bz : List ℕ} (o x : ℕ) (url : List ℕ)
        → denom_eq field.type_name any_name ≡ true
        → wire.consume_varint c ≡ some o
        → wire.unmarshal_any (drop o c) ≡ ok (x ∷ url, bz)
        → wire.message_type url ≡ some msg
        → Holds field c msg bz

  -- A message inside another one, at any depth.
  pub data Inside (msg' : M) (bz' : List ℕ) : M → List ℕ → Type 0 where
    itself : Inside msg' bz' msg' bz'
    deeper :
        {msg msg1 : M} {bz bz1 : List ℕ} (fields : List Field) (field : Field) (t w : ℕ)
        (c : List ℕ)
        → wire.descriptor_fields msg ≡ ok fields
        → Entry bz t w c
        → field_of fields t ≡ some field
        → wire.is_scalar field ≡ false
        → Holds field c msg1 bz1
        → Inside msg' bz' msg1 bz1
        → Inside msg' bz' msg bz

  -- The recursive call has accepted a message, and its flag is in `child`.
  abbrev pub Accepted : (M → List ℕ → Verdict) → M → List ℕ → Bool → Type 0
  Accepted nested msg bz child = (g : Bool) × (nested msg bz ≡ passed g) × (g ≡ true → child ≡ true)

  pub check_typed-Accepted :
      (nested : M → List ℕ → Verdict) (field : Field) (c : List ℕ) (msg : M) (bz : List ℕ)
      (child : Bool)
      → check_typed wire nested field.type_name (wire.consume_varint c) c ≡ passed child
      → Holds field c msg bz
      → Accepted nested msg bz child
  unfolding check_typed check_any check_named check_message
  check_typed-Accepted nested field c msg bz child h (plain o x name other whole len kind rest) =
      let h1 : check_typed wire nested field.type_name (some o) c ≡ passed child = rw len at h in
      let h2 : check_named wire nested field.type_name (drop o c) ≡ passed child =
        if-false _ _ _ other h1 in
      let h3 : check_message wire nested (wire.message_type name) (drop o c) ≡ passed child =
        rw whole at h2 in
      let h4 : nested msg (drop o c) ≡ passed child = rw kind at h3 in (child, rw rest h4, λ p. p)
  check_typed-Accepted nested field c msg bz child h (any_itself o same len kind rest) =
      let h1 : check_typed wire nested field.type_name (some o) c ≡ passed child = rw len at h in
      let h2 = if-true _ _ _ same h1 in
      let (g, first_call, more) = bind-passed (nested wire.any_message (drop o c)) _ child h2 in
      let (_, _, up, _) = join-passed g _ child more in (g, rw (kind, rest) first_call, up)
  check_typed-Accepted nested field c msg bz child h (any_content o x url same len whole kind) =
      let h1 : check_typed wire nested field.type_name (some o) c ≡ passed child = rw len at h in
      let h2 = if-true _ _ _ same h1 in
      let (g, _, more) = bind-passed (nested wire.any_message (drop o c)) _ child h2 in
      let (r, inner, _, up) = join-passed g _ child more in
      let h3 : check_message wire nested (wire.message_type url) bz ≡ passed r =
        rw whole at inner in
      let h4 : nested msg bz ≡ passed r = rw kind at h3 in (r, h4, up)
