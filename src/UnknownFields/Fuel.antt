-- ===== src/UnknownFields/Fuel.antt =====
-- The traversal of codec/unknownproto/unknown_fields.go ends: its fuel is enough for every message.
use plugchain_sdk_go.Prelude.{
  ℕ, zero, suc, ◌≤◌, ◌<◌, ◌≡◌, ◌≢◌, refl, arith, Bool, true, false, not, ◌==◌, if◌then◌else◌, List,
  [], ◌∷◌, length, take, drop, length-take, length-drop, Option, none, some, Result, ok, err, panic,
}
use plugchain_sdk_go.Denom.{denom_eq}
use plugchain_sdk_go.UnknownFields.{
  FieldType, string, bytes, Field, Wire, Verdict, passed, rejected, crashed, out_of_fuel, ◌>>=◌,
  join, check_field, check_untyped, any_name, field_of, can_encode_type, is_critical, check_message,
  check_named, check_any, check_typed, check_value, value_round, tag_round, reject_loop,
  check_fields, reject_on_fuel, reject_unknown_fields,
}

-- What protowire and the decoder of `Any` promise: lengths lie within the bytes, a tag has one byte at
-- least, and the value of an `Any` is a part of its bytes.
pub record IsLawful {M : Type 0} (wire : Wire M) : Type 0 where
  pub tag_length :
      (bz : List ℕ) (t w m : ℕ) → wire.consume_tag bz ≡ some (t, w, m) → (0 < m) × (m ≤ length bz)
  pub any_length :
      (bz url value : List ℕ) → wire.unmarshal_any bz ≡ ok (url, value) → length value ≤ length bz

-- A call that does not run out of fuel.
abbrev pub Ends : Verdict → Type 0
Ends (passed flag) = Unit
Ends (rejected flag e) = Unit
Ends (crashed p) = Unit
Ends out_of_fuel = ⊥

Ends-bind :
    (v : Verdict) (next : Bool → Verdict)
    → Ends v
    → ((b : Bool) → Ends (next b))
    → Ends (v >>= next)
Ends-bind (passed flag) next h k = k flag
Ends-bind (rejected flag e) next h k = tt
Ends-bind (crashed p) next h k = tt
Ends-bind out_of_fuel next h k = h

Ends-join : (flag : Bool) (v : Verdict) → Ends v → Ends (join flag v)
Ends-join flag (passed child) h = tt
Ends-join flag (rejected child e) h = tt
Ends-join flag (crashed p) h = tt
Ends-join flag out_of_fuel h = h

Ends-if : (b : Bool) (v w : Verdict) → Ends v → Ends w → Ends (if b then v else w)
Ends-if true v w h k = h
Ends-if false v w h k = k

Ends-check_field :
    (allow : Bool) (field : Option Field) (flag : Bool) (t w : ℕ)
    → Ends (check_field allow field flag t w)
unfolding check_field
Ends-check_field allow (some field) flag t w =
    Ends-if (can_encode_type w field.field_type) _ _ tt tt
Ends-check_field allow none flag t w = Ends-if (is_critical t) _ _ tt (Ends-if allow _ _ tt tt)

Ends-check_untyped : (t : FieldType) → Ends (check_untyped t)
unfolding check_untyped
Ends-check_untyped string = tt
Ends-check_untyped bytes = tt
Ends-check_untyped _ = tt

module _ {M : Type 0} (wire : Wire M) (laws : IsLawful wire) where
  -- The recursive call ends on messages of fewer than `n` bytes.
  abbrev EndsBelow : ℕ → (M → List ℕ → Verdict) → Type 0
  EndsBelow n nested = (msg : M) (bz : List ℕ) → length bz < n → Ends (nested msg bz)

  Ends-check_message :
      (n : ℕ) (nested : M → List ℕ → Verdict) (msg : Option M) (value : List ℕ)
      → EndsBelow n nested
      → length value < n
      → Ends (check_message wire nested msg value)
  unfolding check_message
  Ends-check_message n nested none value h k = tt
  Ends-check_message n nested (some msg) value h k = h msg value k

  Ends-check_named :
      (n : ℕ) (nested : M → List ℕ → Verdict) (name value : List ℕ)
      → EndsBelow n nested
      → length value < n
      → Ends (check_named wire nested name value)
  unfolding check_named
  Ends-check_named n nested [] value h k = tt
  Ends-check_named n nested (c ∷ name) value h k =
      Ends-check_message n nested (wire.message_type name) value h k

  Ends-check_any :
      (n : ℕ) (nested : M → List ℕ → Verdict) (bz : List ℕ) (r : Result (List ℕ × List ℕ))
      → EndsBelow n nested
      → length bz < n
      → wire.unmarshal_any bz ≡ r
      → Ends (check_any wire nested r)
  unfolding check_any
  Ends-check_any n nested bz (ok (url, value)) h k e =
      let shorter : length value < n = omega (arith, laws.any_length bz url value e) in
      Ends-check_named n nested url value h shorter
  Ends-check_any n nested bz (err e2) h k e = tt
  Ends-check_any n nested bz (panic p) h k e = tt

  Ends-check_typed :
      (n : ℕ) (nested : M → List ℕ → Verdict) (name : List ℕ) (o : Option ℕ) (bz : List ℕ)
      → EndsBelow n nested
      → length bz < n
      → Ends (check_typed wire nested name o bz)
  unfolding check_typed
  Ends-check_typed n nested name none bz h k = tt
  Ends-check_typed n nested name (some o) bz h k =
      let shorter : length (drop o bz) < n = omega (arith, length-drop {0} o bz) in
      Ends-if (denom_eq name any_name) _ _
        (Ends-bind (nested wire.any_message (drop o bz)) _ (h _ _ shorter)
          (λ child. Ends-join child _ (Ends-check_any n nested (drop o bz) _ h shorter refl)))
        (Ends-check_named n nested name (drop o bz) h shorter)

  Ends-check_value :
      (n : ℕ) (nested : M → List ℕ → Verdict) (field : Option Field) (bz : List ℕ)
      → EndsBelow n nested
      → length bz < n
      → Ends (check_value wire nested field bz)
  unfolding check_value
  Ends-check_value n nested none bz h k = tt
  Ends-check_value n nested (some field) bz h k = Ends-if (wire.is_scalar field) _ _ tt (
      Ends-if (length field.type_name == 0) _ _ (Ends-check_untyped field.field_type)
        (Ends-check_typed n nested field.type_name (wire.consume_varint bz) bz h k))

  Ends-value_round :
      (n : ℕ) (nested : M → List ℕ → Verdict) (next : Bool → List ℕ → Verdict)
      (field : Option Field) (flag : Bool) (o : Option ℕ) (bz : List ℕ)
      → EndsBelow n nested
      → length bz < n
      → ((f : Bool) (rest : List ℕ) → length rest ≤ length bz → Ends (next f rest))
      → Ends (value_round wire nested next field flag o bz)
  unfolding value_round
  Ends-value_round n nested next field flag none bz h k rest = tt
  Ends-value_round n nested next field flag (some l) bz h k rest =
      let shorter : length (take l bz) < n = omega (arith, length-take {0} l bz) in
      Ends-bind (join flag (check_value wire nested field (take l bz))) _
        (Ends-join flag _ (Ends-check_value n nested field (take l bz) h shorter))
        (λ f. rest f (drop l bz) (omega (arith, length-drop {0} l bz)))

  Ends-tag_round :
      (n : ℕ) (nested : M → List ℕ → Verdict) (next : Bool → List ℕ → Verdict) (allow : Bool)
      (fields : List Field) (flag : Bool) (o : Option (ℕ × ℕ × ℕ)) (bz : List ℕ)
      → EndsBelow n nested
      → length bz ≤ n
      → wire.consume_tag bz ≡ o
      → ((f : Bool) (rest : List ℕ) → length rest < length bz → Ends (next f rest))
      → Ends (tag_round wire nested next allow fields flag o bz)
  unfolding tag_round
  Ends-tag_round n nested next allow fields flag none bz h k e rest = tt
  Ends-tag_round n nested next allow fields flag (some (t, w, m)) bz h k e rest =
      let (some_bytes, within) = laws.tag_length bz t w m e in
      let shorter : length (drop m bz) < length bz = omega (arith, length-drop {0} m bz) in
      Ends-bind (check_field allow (field_of fields t) flag t w) _
        (Ends-check_field allow (field_of fields t) flag t w)
        (λ flag'.
          Ends-value_round n nested next (field_of fields t) flag' _ (drop m bz) h (omega arith)
            (λ f r le. rest f r (omega arith)))

  Ends-reject_loop :
      (n : ℕ) (nested : M → List ℕ → Verdict) (allow : Bool) (fields : List Field) (fuel : ℕ)
      (flag : Bool) (bz : List ℕ)
      → EndsBelow n nested
      → length bz ≤ n
      → length bz ≤ fuel
      → Ends (reject_loop wire nested allow fields fuel flag bz)
  unfolding reject_loop
  Ends-reject_loop n nested allow fields fuel flag [] h k enough = tt
  Ends-reject_loop n nested allow fields zero flag (b ∷ bz) h k enough = absurd (omega arith)
  Ends-reject_loop n nested allow fields (suc fuel) flag (b ∷ bz) h k enough =
      Ends-tag_round n nested _ allow fields flag (wire.consume_tag (b ∷ bz)) (b ∷ bz) h k refl
        (λ f rest less.
          Ends-reject_loop n nested allow fields fuel f rest h (omega arith) (omega arith))

  Ends-check_fields :
      (n : ℕ) (nested : M → List ℕ → Verdict) (allow : Bool) (r : Result (List Field)) (bz : List ℕ)
      → EndsBelow n nested
      → length bz ≤ n
      → Ends (check_fields wire nested allow r bz)
  unfolding check_fields
  Ends-check_fields n nested allow (ok fields) bz h k =
      Ends-reject_loop n nested allow fields (length bz) false bz h k (omega arith)
  Ends-check_fields n nested allow (err e) bz h k = tt
  Ends-check_fields n nested allow (panic p) bz h k = tt

  Ends-reject_on_fuel :
      (fuel : ℕ) (allow : Bool) (msg : M) (bz : List ℕ)
      → length bz < fuel
      → Ends (reject_on_fuel wire fuel allow msg bz)
  unfolding reject_on_fuel
  Ends-reject_on_fuel zero allow msg bz h = absurd (omega arith)
  Ends-reject_on_fuel (suc fuel) allow msg bz h = Ends-if (length bz == 0) _ _ tt (
      Ends-if (not (wire.has_descriptor msg)) _ _ tt (
        Ends-check_fields fuel _ allow (wire.descriptor_fields msg) bz
          (λ m b less. Ends-reject_on_fuel fuel allow m b less) (omega arith)))

  -- Where a tag that is read takes at least one byte and at most those that there are, and the
  -- value of an Any is not longer than its encoding, RejectUnknownFields ends on all bytes and
  -- for every type of message.
  pub reject_unknown_fields_ends :
      (bz : List ℕ) (msg : M) (allow : Bool) → reject_unknown_fields wire bz msg allow ≢ out_of_fuel
  unfolding reject_unknown_fields
  reject_unknown_fields_ends bz msg allow e =
      let ends : Ends (reject_on_fuel wire (suc (length bz)) allow msg bz) =
        Ends-reject_on_fuel (suc (length bz)) allow msg bz (omega arith) in
      rw e at ends
