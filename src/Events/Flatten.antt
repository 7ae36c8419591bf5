-- ===== src/Events/Flatten.antt =====
-- `Flatten` and the lookups of types/events.go: grouping the events changes no lookup.
use Prim.Native.Nat.{Ordering}
use plugchain_sdk_go.Prelude.{
  ℕ, false, ◌≡◌, refl, sym, ◌∙◌, inl, inr, Bool-cases, List, [], ◌∷◌, ◌++◌, append_assoc,
  append-nil, Option, none, if◌then◌else◌,
}
use plugchain_sdk_go.Denom.{compare_denom, denom_eq}
use plugchain_sdk_go.Denom.Order.{
  Ordering-cases, eq_of_compare_denom, compare_denom_trans, compare_denom_flip, eq_of_denom_eq,
}
use plugchain_sdk_go.Events.{
  Attribute, StringEvent, append_at, flatten_loop, flatten, values_of, get_values, value_or,
  get_value, first,
}

-- The types of the events strictly ascend, each above `low`.
abbrev pub Above : List ℕ → List StringEvent → Type 0
Above low [] = Unit
Above low (e ∷ es) = (compare_denom low e.type_ ≡ Ordering.lt) × Above e.type_ es

abbrev pub IsAscending : List StringEvent → Type 0
IsAscending [] = Unit
IsAscending (e ∷ es) = Above e.type_ es

values_of-append :
    (key : List ℕ) (xs ys : List Attribute)
    → values_of key (xs ++ ys) ≡ values_of key xs ++ values_of key ys
unfolding values_of
values_of-append key [] ys = refl
values_of-append key (a ∷ xs) ys = elim (Bool-cases (denom_eq a.key key)) [
  | inl t ↦ rw (t, values_of-append key xs ys)
  | inr t ↦ rw (t, values_of-append key xs ys)
]

Above-lower :
    (low high : List ℕ) (es : List StringEvent)
    → compare_denom low high ≡ Ordering.lt
    → Above high es
    → Above low es
Above-lower low high [] h k = tt
Above-lower low high (e ∷ es) h (p, k) = (compare_denom_trans low high e.type_ h p, k)

-- No event above `low` has the type `low`.
get_values-Above :
    (type_ key : List ℕ) (es : List StringEvent) → Above type_ es → get_values type_ key es ≡ []
unfolding get_values
get_values-Above type_ key [] h = refl
get_values-Above type_ key (e ∷ es) (p, h) =
    let other : denom_eq e.type_ type_ ≡ false = rw (compare_denom_flip type_ e.type_, p) in
    rw other (get_values-Above type_ key es (Above-lower type_ e.type_ es p h))

Above-IsAscending : (low : List ℕ) (es : List StringEvent) → Above low es → IsAscending es
Above-IsAscending low [] h = tt
Above-IsAscending low (e ∷ es) (p, h) = h

flip_gt : (a b : List ℕ) → compare_denom a b ≡ Ordering.gt → compare_denom b a ≡ Ordering.lt
flip_gt a b h = rw (compare_denom_flip a b, h)

module _ (e : StringEvent) where
  append_at-Above :
      (low : List ℕ) (fs : List StringEvent)
      → compare_denom low e.type_ ≡ Ordering.lt
      → Above low fs
      → Above low (append_at e fs)
  unfolding append_at
  append_at-Above low [] h k = (h, tt)
  append_at-Above low (f ∷ fs) h (p, k) = elim (Ordering-cases (compare_denom e.type_ f.type_)) [
    | inl o ↦ rw o (h, (o, k))
    | inr (inl o) ↦ rw o (p, k)
    | inr (inr o) ↦ rw o (p, append_at-Above f.type_ fs (flip_gt e.type_ f.type_ o) k)
  ]

  append_at-IsAscending : (fs : List StringEvent) → IsAscending fs → IsAscending (append_at e fs)
  unfolding append_at
  append_at-IsAscending [] h = tt
  append_at-IsAscending (f ∷ fs) h = elim (Ordering-cases (compare_denom e.type_ f.type_)) [
    | inl o ↦ rw o (o, h)
    | inr (inl o) ↦ rw o h
    | inr (inr o) ↦ rw o (append_at-Above f.type_ fs (flip_gt e.type_ f.type_ o) h)
  ]

module _ (type_ key : List ℕ) where
  -- What one event has for the key.
  single : StringEvent → List (List ℕ)
  single e = if denom_eq e.type_ type_ then values_of key e.attributes else []

  get_values-cons :
      (e : StringEvent) (es : List StringEvent)
      → get_values type_ key (e ∷ es) ≡ single e ++ get_values type_ key es
  unfolding single get_values
  get_values-cons e es = elim (Bool-cases (denom_eq e.type_ type_)) [ inl t ↦ rw t | inr t ↦ rw t ]

  single-merge :
      (e f : StringEvent)
      → e.type_ ≡ f.type_
      → single (record { type_ = f.type_; attributes = f.attributes ++ e.attributes })
        ≡ single f ++ single e
  unfolding single
  single-merge e f h = elim (Bool-cases (denom_eq f.type_ type_)) [
    | inl t ↦ rw (h, t, values_of-append key f.attributes e.attributes)
    | inr t ↦ rw (h, t)
  ]

  -- A lookup finds nothing behind the event of its type.
  single-Above :
      (e : StringEvent) (fs : List StringEvent)
      → Above e.type_ fs
      → single e ++ get_values type_ key fs ≡ get_values type_ key fs ++ single e
  unfolding single
  single-Above e fs h = elim (Bool-cases (denom_eq e.type_ type_)) [
    | inl t ↦
        let above : Above type_ fs = rw (← eq_of_denom_eq e.type_ type_ t) h in
        rw (t, get_values-Above type_ key fs above, append-nil)
    | inr t ↦ rw (t, append-nil)
  ]

  get_values-append_at :
      (e : StringEvent) (fs : List StringEvent)
      → IsAscending fs
      → get_values type_ key (append_at e fs) ≡ get_values type_ key fs ++ single e
  unfolding append_at
  get_values-append_at e [] h = get_values-cons e [] ∙ single-Above e [] tt
  get_values-append_at e (f ∷ fs) h = elim (Ordering-cases (compare_denom e.type_ f.type_)) [
    | inl o ↦ rw o (get_values-cons e (f ∷ fs) ∙ single-Above e (f ∷ fs) (o, h))
    | inr (inl o) ↦
        let same = eq_of_compare_denom e.type_ f.type_ o in
        let above : Above e.type_ fs = rw same h in
        rw o (
          get_values-cons _ fs
          ∙ rw (
            single-merge e f same,
            get_values-cons f fs,
            append_assoc (single f) (single e) (get_values type_ key fs),
            append_assoc (single f) (get_values type_ key fs) (single e),
            single-Above e fs above,
          ))
    | inr (inr o) ↦ rw o (
        get_values-cons f (append_at e fs)
        ∙ rw (
          get_values-cons f fs,
          get_values-append_at e fs (Above-IsAscending f.type_ fs h),
          append_assoc (single f) (get_values type_ key fs) (single e),
        ))
  ]

  get_values-flatten_loop :
      (es flat : List StringEvent)
      → IsAscending flat
      → get_values type_ key (flatten_loop es flat)
        ≡ get_values type_ key flat ++ get_values type_ key es
  unfolding flatten_loop
  get_values-flatten_loop [] flat h =
      sym (unfold get_values in append-nil (get_values type_ key flat))
  get_values-flatten_loop (e ∷ es) flat h =
      get_values-flatten_loop es (append_at e flat) (append_at-IsAscending e flat h)
      ∙ rw (
        get_values-append_at e flat h,
        get_values-cons e es,
        append_assoc (get_values type_ key flat) (single e) (get_values type_ key es),
      )

  value_or-first :
      (attributes : List Attribute) (rest : Option (List ℕ))
      → value_or key attributes rest ≡ first (values_of key attributes) rest
  unfolding value_or values_of
  value_or-first [] rest = refl
  value_or-first (a ∷ others) rest = elim (Bool-cases (denom_eq a.key key)) [
    | inl t ↦ rw t
    | inr t ↦ rw (t, value_or-first others rest)
  ]

  first-append : (xs ys : List (List ℕ)) → first xs (first ys none) ≡ first (xs ++ ys) none
  first-append [] ys = refl
  first-append (x ∷ xs) ys = refl

  -- The lookup of one value finds the first of those that the lookup of all finds.
  get_value-first :
      (es : List StringEvent) → get_value type_ key es ≡ first (get_values type_ key es) none
  unfolding get_value get_values
  get_value-first [] = refl
  get_value-first (e ∷ es) = elim (Bool-cases (denom_eq e.type_ type_)) [
    | inl t ↦ rw (
      t,
      get_value-first es,
      value_or-first e.attributes (first (get_values type_ key es) none),
      first-append (values_of key e.attributes) (get_values type_ key es),
    )
    | inr t ↦ rw (t, get_value-first es)
  ]

  -- Grouping the events by their types changes no lookup: every key of every type has the same
  -- values, in the same order, and the same first value.
  pub get_values-flatten :
      (es : List StringEvent)
      → (get_values type_ key (flatten es) ≡ get_values type_ key es)
        × (get_value type_ key (flatten es) ≡ get_value type_ key es)
  unfolding flatten
  get_values-flatten es =
      let all : get_values type_ key (flatten_loop es []) ≡ get_values type_ key es =
        get_values-flatten_loop es [] tt ∙ (unfold get_values in refl) in
      (all, rw (get_value-first (flatten_loop es []), get_value-first es, all))

flatten_loop-IsAscending :
    (es flat : List StringEvent) → IsAscending flat → IsAscending (flatten_loop es flat)
unfolding flatten_loop
flatten_loop-IsAscending [] flat h = h
flatten_loop-IsAscending (e ∷ es) flat h =
    flatten_loop-IsAscending es (append_at e flat) (append_at-IsAscending e flat h)

-- The types of the grouped events strictly ascend, so that each type occurs once.
pub flatten-IsAscending : (es : List StringEvent) → IsAscending (flatten es)
unfolding flatten
flatten-IsAscending es = flatten_loop-IsAscending es [] tt
