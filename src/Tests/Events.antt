-- ===== src/Tests/Events.antt =====
-- Runs of the grouping of types/events.go.
use plugchain_sdk_go.Prelude.{ℕ, ◌≡◌, List, [], ◌∷◌}
use plugchain_sdk_go.Events.{Attribute, StringEvent, flatten, get_value, get_values}
use plugchain_sdk_go.Events.Flatten.{get_values-flatten}

abbrev attribute : ℕ → ℕ → Attribute
attribute key value = record { key = key ∷ []; value = value ∷ [] }

-- Two events of one type around one of another.
abbrev three_events : List StringEvent
three_events =
    record { type_ = b'b' ∷ []; attributes = attribute b'k' 1 ∷ [] }
    ∷ record { type_ = b'a' ∷ []; attributes = attribute b'k' 2 ∷ [] }
    ∷ record { type_ = b'b' ∷ []; attributes = attribute b'k' 3 ∷ attribute b'j' 4 ∷ [] }
    ∷ []

get_values-flatten_example :
    (get_values (b'b' ∷ []) (b'k' ∷ []) (flatten three_events)
      ≡ get_values (b'b' ∷ []) (b'k' ∷ []) three_events)
    × (get_value (b'b' ∷ []) (b'k' ∷ []) (flatten three_events)
        ≡ get_value (b'b' ∷ []) (b'k' ∷ []) three_events)
get_values-flatten_example = get_values-flatten (b'b' ∷ []) (b'k' ∷ []) three_events
