-- ===== src/UnknownFields/Known.antt =====
-- A message that codec/unknownproto/unknown_fields.go accepts hides no critical unknown field, however
-- deep it is nested.
use plugchain_sdk_go.Prelude.{
  ℕ, zero, suc, ◌≡◌, refl, ap, inl, inr, arith, Bool, true, false, not, ◌==◌, if-true, if-false,
  Bool-cases, List, [], ◌∷◌, length, take, drop, Option, none, some, ok,
}
use plugchain_sdk_go.Denom.Order.{eq_of_denom_eq}
use plugchain_sdk_go.UnknownFields.{
  Field, Wire, Verdict, passed, join, check_field, any_name, field_of, check_value, value_round,
  tag_round, reject_loop, check_fields, reject_on_fuel, reject_unknown_fields,
}
use plugchain_sdk_go.UnknownFields.Fuel.{IsLawful}
use plugchain_sdk_go.UnknownFields.Inside.{
  IsKnown, IsKnown-mono, bind-passed, join-passed, check_field-IsKnown, Entry, first, later, Holds,
  plain, any_itself, any_content, Inside, itself, deeper, Accepted, check_typed-Accepted,
}

module _ {M : Type 0} (wire : Wire M) where
  -- A field that holds a message has the name of a type.
  Holds-named :
      (field : Field) (c : List ℕ) (msg : M) (bz : List ℕ)
      → Holds wire field c msg bz
      → (length field.type_name == 0) ≡ false
  Holds-named field c msg bz (plain o x name other whole len kind rest) =
      let long : length field.type_name ≡ suc (length name) = ap length whole in ground arith
  Holds-named field c msg bz (any_itself o same len kind rest) =
      let long : length field.type_name ≡ 20 =
        ap length (eq_of_denom_eq field.type_name any_name same) in
      ground arith
  Holds-named field c msg bz (any_content o x url same len whole kind) =
      let long : length field.type_name ≡ 20 =
        ap length (eq_of_denom_eq field.type_name any_name same) in
      ground arith

  check_value-Accepted :
      (nested : M → List ℕ → Verdict) (field : Field) (c : List ℕ) (msg : M) (bz : List ℕ)
      (child : Bool)
      → check_value wire nested (some field) c ≡ passed child
      → wire.is_scalar field ≡ false
      → Holds wire field c msg bz
      → Accepted wire nested msg bz child
  unfolding check_value
  check_value-Accepted nested field c msg bz child h composite holds =
      check_typed-Accepted wire nested field c msg bz child
        (if-false _ _ _ (Holds-named field c msg bz holds) (if-false _ _ _ composite h)) holds

  -- What a loop that accepts its bytes has checked of each field: it is known, and its content accepted.
  abbrev Checked : (M → List ℕ → Verdict) → Bool → List Field → ℕ → ℕ → List ℕ → Bool → Type 0
  Checked nested allow fields t w c r =
      IsKnown allow fields t w r
      × ((child : Bool) × (check_value wire nested (field_of fields t) c ≡ passed child)
          × (child ≡ true → r ≡ true))

  -- A round that goes on: what it has checked, and the rest of the loop with its flag.
  tag_round-passed :
      (nested : M → List ℕ → Verdict) (next : Bool → List ℕ → Verdict) (allow : Bool)
      (fields : List Field) (flag : Bool) (t w m n : ℕ) (bz : List ℕ) (r : Bool)
      → wire.consume_field_value t w (drop m bz) ≡ some n
      → tag_round wire nested next allow fields flag (some (t, w, m)) bz ≡ passed r
      → (f : Bool) × Checked nested allow fields t w (take n (drop m bz)) f
        × (flag ≡ true → f ≡ true)
        × (next f (drop n (drop m bz)) ≡ passed r)
  unfolding tag_round value_round
  tag_round-passed nested next allow fields flag t w m n bz r value h =
      let (f1, known, h1) = bind-passed (check_field allow (field_of fields t) flag t w) _ r h in
      let h2 : value_round wire nested next (field_of fields t) f1 (some n) (drop m bz) ≡ passed r =
        rw value at h1 in
      let (f, joined, h3) =
        bind-passed (join f1 (check_value wire nested (field_of fields t) (take n (drop m bz)))) _ r
          h2 in
      let (child, content, up1, up2) = join-passed f1 _ f joined in
      let (is_known, up) =
        check_field-IsKnown allow fields flag t w (field_of fields t) f1 refl known in
      (
        f,
        (IsKnown-mono allow fields t w f1 f up1 is_known, (child, content, up2)),
        (λ p. up1 (up p)),
        h3,
      )

  -- The rest of a loop keeps a flag that is set.
  abbrev Keeps : (Bool → List ℕ → Verdict) → Bool → Type 0
  Keeps next r = (f : Bool) (rest : List ℕ) → next f rest ≡ passed r → f ≡ true → r ≡ true

  value_round_mono :
      (nested : M → List ℕ → Verdict) (next : Bool → List ℕ → Verdict) (o : Option Field)
      (flag : Bool) (l : Option ℕ) (bz : List ℕ) (r : Bool)
      → Keeps next r
      → value_round wire nested next o flag l bz ≡ passed r
      → flag ≡ true
      → r ≡ true
  unfolding value_round
  value_round_mono nested next o flag none bz r keeps h t = cc
  value_round_mono nested next o flag (some n) bz r keeps h t =
      let (f, joined, h1) = bind-passed (join flag (check_value wire nested o (take n bz))) _ r h in
      let (_, _, up, _) = join-passed flag _ f joined in keeps f (drop n bz) h1 (up t)

  tag_round_mono :
      (nested : M → List ℕ → Verdict) (next : Bool → List ℕ → Verdict) (allow : Bool)
      (fields : List Field) (flag : Bool) (o : Option (ℕ × ℕ × ℕ)) (bz : List ℕ) (r : Bool)
      → Keeps next r
      → tag_round wire nested next allow fields flag o bz ≡ passed r
      → flag ≡ true
      → r ≡ true
  unfolding tag_round
  tag_round_mono nested next allow fields flag none bz r keeps h t = cc
  tag_round_mono nested next allow fields flag (some (n, w, m)) bz r keeps h t =
      let (f, known, h1) = bind-passed (check_field allow (field_of fields n) flag n w) _ r h in
      let (_, up) = check_field-IsKnown allow fields flag n w (field_of fields n) f refl known in
      value_round_mono nested next (field_of fields n) f _ (drop m bz) r keeps h1 (up t)

  -- The flag that a loop starts with is kept.
  reject_loop_mono :
      (nested : M → List ℕ → Verdict) (allow : Bool) (fields : List Field) (fuel : ℕ) (flag : Bool)
      (bz : List ℕ) (r : Bool)
      → reject_loop wire nested allow fields fuel flag bz ≡ passed r
      → flag ≡ true
      → r ≡ true
  unfolding reject_loop
  reject_loop_mono nested allow fields fuel flag [] r h t = cc
  reject_loop_mono nested allow fields zero flag (b ∷ bz) r h t = cc
  reject_loop_mono nested allow fields (suc fuel) flag (b ∷ bz) r h t =
      tag_round_mono nested _ allow fields flag (wire.consume_tag (b ∷ bz)) (b ∷ bz) r
        (λ f rest h1 t1. reject_loop_mono nested allow fields fuel f rest r h1 t1) h t

  Checked-mono :
      (nested : M → List ℕ → Verdict) (allow : Bool) (fields : List Field) (t w : ℕ) (c : List ℕ)
      (f r : Bool)
      → (f ≡ true → r ≡ true)
      → Checked nested allow fields t w c f
      → Checked nested allow fields t w c r
  Checked-mono nested allow fields t w c f r up (known, (child, content, seen)) =
      (IsKnown-mono allow fields t w f r up known, (child, content, (λ p. up (seen p))))

  module _ (laws : IsLawful wire) where
    -- A loop that accepts its bytes has checked each of their fields.
    reject_loop-Checked :
        (nested : M → List ℕ → Verdict) (allow : Bool) (fields : List Field) (fuel : ℕ)
        (flag : Bool) (bz : List ℕ) (r : Bool) (t w : ℕ) (c : List ℕ)
        → reject_loop wire nested allow fields fuel flag bz ≡ passed r
        → Entry wire bz t w c
        → Checked nested allow fields t w c r
    unfolding reject_loop
    reject_loop-Checked nested allow fields fuel flag [] r t w c h (first m n tag value content) =
        absurd (omega (arith, laws.tag_length [] t w m tag))
    reject_loop-Checked nested allow fields fuel flag [] r t w c h
          (later t' w' m n tag value rest) =
        absurd (omega (arith, laws.tag_length [] t' w' m tag))
    reject_loop-Checked nested allow fields zero flag (b ∷ bz) r t w c h entry = cc
    reject_loop-Checked nested allow fields (suc fuel) flag (b ∷ bz) r t w c h
          (first m n tag value content) =
        let next : Bool → List ℕ → Verdict =
          (λ f rest. reject_loop wire nested allow fields fuel f rest) in
        let h1 : tag_round wire nested next allow fields flag (some (t, w, m)) (b ∷ bz) ≡ passed r =
          rw tag at h in
        let (f, checked, _, more) =
          tag_round-passed nested next allow fields flag t w m n (b ∷ bz) r value h1 in
        rw content (
          Checked-mono nested allow fields t w _ f r
            (reject_loop_mono nested allow fields fuel f _ r more) checked)
    reject_loop-Checked nested allow fields (suc fuel) flag (b ∷ bz) r t w c h
          (later t' w' m n tag value rest) =
        let next : Bool → List ℕ → Verdict =
          (λ f rest1. reject_loop wire nested allow fields fuel f rest1) in
        let h1 : tag_round wire nested next allow fields flag (some (t', w', m)) (b ∷ bz)
            ≡ passed r =
          rw tag at h in
        let (f, _, _, more) =
          tag_round-passed nested next allow fields flag t' w' m n (b ∷ bz) r value h1 in
        reject_loop-Checked nested allow fields fuel f (drop n (drop m (b ∷ bz))) r t w c more rest

    -- The same of the whole message, if it has a field at all.
    reject_on_fuel-Checked :
        (fuel : ℕ) (allow : Bool) (msg : M) (bz : List ℕ) (r : Bool) (fields : List Field) (t w : ℕ)
        (c : List ℕ)
        → reject_on_fuel wire (suc fuel) allow msg bz ≡ passed r
        → wire.descriptor_fields msg ≡ ok fields
        → Entry wire bz t w c
        → Checked (λ m b. reject_on_fuel wire fuel allow m b) allow fields t w c r
    unfolding reject_on_fuel check_fields
    reject_on_fuel-Checked fuel allow msg [] r fields t w c h e (first m n tag value content) =
        absurd (omega (arith, laws.tag_length [] t w m tag))
    reject_on_fuel-Checked fuel allow msg [] r fields t w c h e (later t' w' m n tag value rest) =
        absurd (omega (arith, laws.tag_length [] t' w' m tag))
    reject_on_fuel-Checked fuel allow msg (b ∷ bz) r fields t w c h e entry =
        let nested : M → List ℕ → Verdict = (λ m b1. reject_on_fuel wire fuel allow m b1) in
        let filled : (length (b ∷ bz) == 0) ≡ false = ground arith in
        let h1 = if-false _ _ _ filled h in
        elim (Bool-cases (not (wire.has_descriptor msg))) [
          | inl missing ↦ absurd (cc (if-true _ _ _ missing h1))
          | inr there ↦
              let h2 : check_fields wire nested allow (ok fields) (b ∷ bz) ≡ passed r =
                rw e at (if-false _ _ _ there h1) in
              reject_loop-Checked nested allow fields (length (b ∷ bz)) false (b ∷ bz) r t w c h2
                entry
        ]

    no_fuel :
        (allow : Bool) (msg : M) (bz : List ℕ) (r : Bool)
        → reject_on_fuel wire zero allow msg bz ≡ passed r
        → ⊥
    unfolding reject_on_fuel
    no_fuel allow msg bz r h = cc

    -- A message inside one that is accepted is accepted itself.
    reject_on_fuel-IsKnown :
        (fuel : ℕ) (allow : Bool) (msg msg' : M) (bz bz' : List ℕ) (r : Bool) (fields : List Field)
        (t w : ℕ) (c : List ℕ)
        → reject_on_fuel wire fuel allow msg bz ≡ passed r
        → Inside wire msg' bz' msg bz
        → wire.descriptor_fields msg' ≡ ok fields
        → Entry wire bz' t w c
        → IsKnown allow fields t w r
    reject_on_fuel-IsKnown zero allow msg msg' bz bz' r fields t w c h inside e entry =
        absurd (no_fuel allow msg bz r h)
    reject_on_fuel-IsKnown (suc fuel) allow msg msg' bz bz' r fields t w c h itself e entry =
        (reject_on_fuel-Checked fuel allow msg bz r fields t w c h e entry).0
    reject_on_fuel-IsKnown (suc fuel) allow msg msg' bz bz' r fields t w c h
          (deeper {msg1 = msg1} {bz1 = bz1} fields1 field t1 w1 c1 e1 entry1 found composite holds
            inside)
          e entry =
        let (_, (child, content, up)) =
          reject_on_fuel-Checked fuel allow msg bz r fields1 t1 w1 c1 h e1 entry1 in
        let (g, call, up1) =
          check_value-Accepted (λ m b. reject_on_fuel wire fuel allow m b) field c1 msg1 bz1 child
            (rw found at content) composite holds in
        IsKnown-mono allow fields t w g r (λ p. up (up1 p))
          (reject_on_fuel-IsKnown fuel allow msg1 msg' bz1 bz' g fields t w c call inside e entry)

    -- In a message that RejectUnknownFields accepts, each field of the message and of every
    -- message inside it, at any depth and in an Any too, is one that its type knows with its wire
    -- type, or it is not critical, the call allows such fields, and its flag reports them.
    pub reject_unknown_fields-IsKnown :
        (bz : List ℕ) (msg : M) (allow flag : Bool) (msg' : M) (bz' : List ℕ) (fields : List Field)
        (t w : ℕ) (c : List ℕ)
        → reject_unknown_fields wire bz msg allow ≡ passed flag
        → Inside wire msg' bz' msg bz
        → wire.descriptor_fields msg' ≡ ok fields
        → Entry wire bz' t w c
        → IsKnown allow fields t w flag
    unfolding reject_unknown_fields
    reject_unknown_fields-IsKnown bz msg allow flag msg' bz' fields t w c h inside e entry =
        reject_on_fuel-IsKnown (suc (length bz)) allow msg msg' bz bz' flag fields t w c h inside e
          entry
