-- ===== src/Client/Returns.antt =====
-- What holds of the values that the calls of the client return.
use plugchain_sdk_go.Prelude.{Result, ok, err, panic}
use plugchain_sdk_go.Client.{Io, continue}

-- What holds of the value that a call returns, if it returns one.
abbrev pub Returns : {W A : Type 0} → (A → Type 0) → Result A × W → Type 0
Returns P (ok a, w) = P a
Returns P (err e, w) = Unit
Returns P (panic p, w) = Unit

pub continue-Returns :
    {W A B : Type 0} (P : A → Type 0) (Q : B → Type 0) (next : A → Io W B) (m : Result A × W)
    → Returns P m
    → ((a : A) (w : W) → P a → Returns Q (next a w))
    → Returns Q (continue next m)
continue-Returns P Q next (ok a, w) h step = step a w h
continue-Returns P Q next (err e, w) h step = tt
continue-Returns P Q next (panic p, w) h step = tt

pub anything : {W A : Type 0} (m : Result A × W) → Returns (λ a. Unit {0}) m
anything (ok a, w) = tt
anything (err e, w) = tt
anything (panic p, w) = tt
