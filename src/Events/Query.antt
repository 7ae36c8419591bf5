-- ===== src/Events/Query.antt =====
-- The builder of subscriptions in types/event.go: conditions on the attributes of events, and their
-- conjunction as a text.
use plugchain_sdk_go.Prelude.{
  ℕ, ◌≡◌, sym, ◌∙◌, arith, false, ◌||◌, ◌==◌, if◌then◌else◌, List, [], ◌∷◌, ◌++◌, append-nil,
  append_assoc, length, length-append, Option, none, some,
}
use plugchain_sdk_go.Prelude.Integer.{ℤ, mag, is_neg}
use plugchain_sdk_go.Prelude.Text.{print}

-- What a condition compares with: an int64 or a uint64, or a text. Other types of values are left out.
-- The operator is empty at first.
pub data EventValue : Type 0 where
  no_value : EventValue
  number : ℤ → EventValue
  text : List ℕ → EventValue

pub record Condition : Type 0 where
  pub key : List ℕ
  pub value : EventValue
  pub op : List ℕ

-- `Cond` and `NewCond`
unfoldable pub cond_of : List ℕ → Condition
cond_of key = record { key = key; value = no_value; op = [] }

unfoldable pub new_cond : List ℕ → List ℕ → Condition
unfolding cond_of
new_cond kind attr_key = cond_of (kind ++ b'.' ∷ attr_key)

unfoldable pub fill : EventValue → List ℕ → Condition → Condition
fill v op c = record { key = c.key; value = v; op = op }

-- `LTE`, `GTE`, `LE`, `GE` and `EQ`
unfoldable pub lte : EventValue → Condition → Condition
unfolding fill
lte v c = fill v (b'<' ∷ b'=' ∷ []) c

unfoldable pub gte : EventValue → Condition → Condition
unfolding fill
gte v c = fill v (b'>' ∷ b'=' ∷ []) c

unfoldable pub le : EventValue → Condition → Condition
unfolding fill
le v c = fill v (b'<' ∷ []) c

unfoldable pub ge : EventValue → Condition → Condition
unfolding fill
ge v c = fill v (b'>' ∷ []) c

unfoldable pub eq : EventValue → Condition → Condition
unfolding fill
eq v c = fill v (b'=' ∷ []) c

-- `%d` and `'%s'`; a nil value is printed as fmt does it.
unfoldable pub value_string : EventValue → List ℕ
value_string no_value =
    b'\'' ∷ b'%' ∷ b'!' ∷ b's' ∷ b'(' ∷ b'<' ∷ b'n' ∷ b'i' ∷ b'l' ∷ b'>' ∷ b')' ∷ b'\'' ∷ []
value_string (number i) = if is_neg i then b'-' ∷ print (mag i) else print (mag i)
value_string (text s) = b'\'' ∷ s ++ b'\'' ∷ []

unfoldable pub condition_string : Condition → List ℕ
unfolding value_string
condition_string c =
    if length c.key == 0 || length c.op == 0 then [] else c.key ++ (c.op ++ value_string c.value)

-- `AddCondition`; a nil condition gives a nil builder.
unfoldable pub add_condition : List (List ℕ) → Option Condition → Option (List (List ℕ))
unfolding condition_string
add_condition conditions none = none
add_condition conditions (some c) = some (conditions ++ condition_string c ∷ [])

-- " AND "
abbrev pub and_text : List ℕ
and_text = 32 ∷ b'A' ∷ b'N' ∷ b'D' ∷ 32 ∷ []

-- The loop of `Build`, with what the buffer holds.
unfoldable pub build_loop : List ℕ → List (List ℕ) → List ℕ
build_loop buf [] = buf
build_loop buf (c ∷ cs) =
    build_loop (if length buf == 0 then buf ++ c else (buf ++ and_text) ++ c) cs

unfoldable pub build : List (List ℕ) → List ℕ
unfolding build_loop
build conditions = build_loop [] conditions

-- Each condition behind an " AND ".
abbrev behind_and : List (List ℕ) → List ℕ
behind_and [] = []
behind_and (c ∷ cs) = and_text ++ (c ++ behind_and cs)

build_loop_filled :
    (buf : List ℕ) (cs : List (List ℕ))
    → (length buf == 0) ≡ false
    → build_loop buf cs ≡ buf ++ behind_and cs
unfolding build_loop
build_loop_filled buf [] h = sym (append-nil buf)
build_loop_filled buf (c ∷ cs) h =
    let longer : (length ((buf ++ and_text) ++ c) == 0) ≡ false =
      rw (length-append (buf ++ and_text) c, length-append buf and_text) (ground arith) in
    rw h (
      build_loop_filled ((buf ++ and_text) ++ c) cs longer
      ∙ append_assoc (buf ++ and_text) c (behind_and cs)
      ∙ append_assoc buf and_text (c ++ behind_and cs))

-- Behind a first condition that has a text, each condition stands behind an " AND ".
build_lem :
    (c : List ℕ) (cs : List (List ℕ))
    → (length c == 0) ≡ false
    → build (c ∷ cs) ≡ c ++ behind_and cs
unfolding build build_loop
build_lem c cs h = build_loop_filled c cs h
