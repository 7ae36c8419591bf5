-- ===== src/Dec/Root.antt =====
-- `Power`, `ApproxRoot` and `ApproxSqrt` of types/dec.go.
use plugchain_sdk_go.Prelude.{
  ℕ, zero, suc, ◌-◌, ◌/◌, ◌%◌, ◌||◌, not, ltb, ◌==◌, if◌then◌else◌, Result, ok, err, panic, ◌>>=◌,
  out_of_bounds,
}
use plugchain_sdk_go.Prelude.Integer.{negsuc}
use plugchain_sdk_go.Int
use plugchain_sdk_go.Dec
use plugchain_sdk_go.Dec.{Decimal}

-- The loop of `Power` for `i`, `d` and `tmp`, and the product behind it. The first argument bounds
-- the rounds: `i` is halved in each, so its own value is enough.
unfoldable pub power_loop : ℕ → ℕ → Decimal → Decimal → Result Decimal
power_loop zero i d tmp = Dec.mul d tmp
power_loop (suc fuel) i d tmp =
    if not (ltb 1 i)
    then Dec.mul d tmp
    else if i % 2 == 0
    then (Dec.mul d d >>= λ square. power_loop fuel (i / 2) square tmp)
    else (Dec.mul tmp d >>= λ next.
        Dec.mul d d >>= λ square. power_loop fuel ((i - 1) / 2) square next)

unfoldable pub power : Decimal → ℕ → Result Decimal
unfolding power_loop
power d exponent =
    if exponent == 0 then ok Dec.one_dec else power_loop exponent exponent d Dec.one_dec

-- The deferred `recover`: no panic that reaches it has an `error` for its value.
abbrev pub recovered : Result Decimal → Result Decimal
recovered (ok d) = ok d
recovered (err e) = err e
recovered (panic p) = err out_of_bounds

abbrev pub max_approx_root_iterations : ℕ
max_approx_root_iterations = 100

-- One round of Newton's method: the new `delta`.
unfoldable pub newton_delta : Decimal → ℕ → Decimal → Result Decimal
newton_delta d root guess = do
  prev ← power guess (root - 1)
  quotient ← Dec.quo d (if Dec.is_zero prev then Dec.smallest_dec else prev)
  difference ← Dec.sub quotient guess
  Dec.quo_int difference (Int.new_int_from_uint64 root)

-- The loop, with the rounds that `iter` leaves.
unfoldable pub newton_loop : ℕ → Decimal → ℕ → Decimal → Decimal → Result Decimal
newton_loop zero d root guess delta = ok guess
newton_loop (suc rounds) d root guess delta =
    if Dec.gt (Dec.abs delta) Dec.smallest_dec
    then (newton_delta d root guess >>= λ delta'.
        Dec.add guess delta' >>= λ guess'. newton_loop rounds d root guess' delta')
    else ok guess

-- `ApproxRoot` of a decimal that is not negative.
unfoldable pub approx_root_abs : Decimal → ℕ → Result Decimal
unfolding newton_loop
approx_root_abs d root =
    if root == 1 || Dec.is_zero d || Dec.equal d Dec.one_dec
    then ok d
    else if root == 0
    then ok Dec.one_dec
    else recovered (newton_loop max_approx_root_iterations d root Dec.one_dec Dec.one_dec)

-- The guess that Go returns beside an error is dropped.
unfoldable pub approx_root : Decimal → ℕ → Result Decimal
unfolding approx_root_abs
approx_root d root =
    if Dec.is_negative d
    then recovered (
        Dec.mul_int64 d (negsuc 0) >>= λ opposite.
        approx_root_abs opposite root >>= λ abs_root. Dec.mul_int64 abs_root (negsuc 0))
    else approx_root_abs d root

unfoldable pub approx_sqrt : Decimal → Result Decimal
unfolding approx_root
approx_sqrt d = approx_root d 2
