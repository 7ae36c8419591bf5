-- ===== src/Events.antt =====
-- types/events.go and types/event.go: string events, the grouping that `StringifyEvents` gives them,
-- and the lookups of their attributes.
pub mod Flatten
pub mod Query
use Prim.Native.Nat.{Ordering}
use plugchain_sdk_go.Prelude.{
  ℕ, Bool, true, false, ◌≡◌, List, [], ◌∷◌, ◌++◌, map, Option, none, some, if◌then◌else◌,
}
use plugchain_sdk_go.Denom.{compare_denom, denom_eq}

pub record Attribute : Type 0 where
  pub key : List ℕ
  pub value : List ℕ

pub record StringEvent : Type 0 where
  pub type_ : List ℕ
  pub attributes : List Attribute

-- `abci.Event` has byte slices where a `StringEvent` has strings.
unfoldable pub stringify_event : List ℕ × List (List ℕ × List ℕ) → StringEvent
stringify_event (type_, attributes) = record {
  type_ = type_;
  attributes = map (λ attr. record { key = attr.0; value = attr.1 }) attributes;
}

-- `e` at, or before, an event `f` of the map; `behind` is what it gives in the rest of the map.
abbrev pub place :
    Ordering → StringEvent → StringEvent → List StringEvent → List StringEvent → List StringEvent
place Ordering.lt e f fs behind = e ∷ f ∷ fs
place Ordering.eq e f fs behind =
    record { type_ = f.type_; attributes = f.attributes ++ e.attributes } ∷ fs
place Ordering.gt e f fs behind = f ∷ behind

-- `flatEvents[e.Type] = append(flatEvents[e.Type], e.Attributes...)`, with the map as the list of its
-- entries in the order of `sort.Strings`.
unfoldable pub append_at : StringEvent → List StringEvent → List StringEvent
append_at e [] = e ∷ []
append_at e (f ∷ fs) = place (compare_denom e.type_ f.type_) e f fs (append_at e fs)

-- The loop of `Flatten` over the events, with the map so far.
unfoldable pub flatten_loop : List StringEvent → List StringEvent → List StringEvent
unfolding append_at
flatten_loop [] flat = flat
flatten_loop (e ∷ es) flat = flatten_loop es (append_at e flat)

unfoldable pub flatten : List StringEvent → List StringEvent
unfolding flatten_loop
flatten se = flatten_loop se []

unfoldable pub stringify_events : List (List ℕ × List (List ℕ × List ℕ)) → List StringEvent
unfolding stringify_event flatten
stringify_events events = flatten (map stringify_event events)

-- The values of a key among attributes: the inner loops of `GetValue` and `GetValues`.
unfoldable pub values_of : List ℕ → List Attribute → List (List ℕ)
values_of key [] = []
values_of key (a ∷ rest) =
    if denom_eq a.key key then a.value ∷ values_of key rest else values_of key rest

unfoldable pub get_values : List ℕ → List ℕ → List StringEvent → List (List ℕ)
unfolding values_of
get_values type_ key [] = []
get_values type_ key (e ∷ es) =
    if denom_eq e.type_ type_
    then values_of key e.attributes ++ get_values type_ key es
    else get_values type_ key es

abbrev pub first : List (List ℕ) → Option (List ℕ) → Option (List ℕ)
first [] rest = rest
first (v ∷ vs) rest = some v

-- The value of a key, or the value that the later events give.
unfoldable pub value_or : List ℕ → List Attribute → Option (List ℕ) → Option (List ℕ)
value_or key [] rest = rest
value_or key (a ∷ others) rest =
    if denom_eq a.key key then some a.value else value_or key others rest

-- `GetValue`; `none` is its error.
unfoldable pub get_value : List ℕ → List ℕ → List StringEvent → Option (List ℕ)
unfolding value_or
get_value type_ key [] = none
get_value type_ key (e ∷ es) =
    let rest = get_value type_ key es in
    if denom_eq e.type_ type_ then value_or key e.attributes rest else rest
