-- ===== src/CoinText.antt =====
-- The text forms of coins in types/coin.go and types/dec_coin.go: `String`, `ParseCoin`, `ParseCoins`,
-- `ParseDecCoin`, `ParseDecCoins`, and `NewIntFromString` of types/int.go for strings of digits.
pub mod Amounts
pub mod Scan
pub mod RoundTrip
use plugchain_sdk_go.Prelude.{
  ℕ, ◌+◌, ◌-◌, ◌*◌, Bool, true, false, not, ◌&&◌, leb, ◌==◌, if◌then◌else◌, List, [], ◌∷◌, ◌++◌,
  length, take, Option, none, some, Result, ok, err, ◌>>=◌, ◌>>◌, err_if, invalid_coin_expression,
  invalid_coin_amount, invalid_coin_set,
}
use plugchain_sdk_go.Prelude.Integer.{ℤ, pos, mag, is_neg}
use plugchain_sdk_go.Prelude.Text.{digits, print, split_on}
use plugchain_sdk_go.Denom.{Denom, matches_denom, validate_denom}
use plugchain_sdk_go.CoinType.{trim_left, trim_space}
use plugchain_sdk_go.CoinSet.{Coin, sort, is_valid}
use plugchain_sdk_go.Int.{too_long}
use plugchain_sdk_go.Coin
use plugchain_sdk_go.Dec
use plugchain_sdk_go.Dec.Parse.{new_dec_from_str}
use plugchain_sdk_go.DecCoin

-- `Int.String`
unfoldable pub int_string : ℤ → List ℕ
int_string i = if is_neg i then b'-' ∷ print (mag i) else print (mag i)

-- `big.Int.SetString` in base 0 on digits: a zero before other digits means base 8.
abbrev pub octal_from : ℕ → List ℕ → Option ℕ
octal_from n [] = some n
octal_from n (c ∷ cs) =
    if leb b'0' c && leb c b'7' then octal_from (n * 8 + (c - b'0')) cs else none

abbrev pub set_string_base_0 : List ℕ → Option ℕ
set_string_base_0 [] = none
set_string_base_0 (c ∷ []) = digits (c ∷ [])
set_string_base_0 (c ∷ d ∷ cs) = if c == b'0' then octal_from 0 (d ∷ cs) else digits (c ∷ d ∷ cs)

-- `NewIntFromString`
abbrev pub in_range : Option ℕ → Option ℤ
in_range none = none
in_range (some n) = if too_long (pos n) then none else some (pos n)

unfoldable pub new_int_from_string : List ℕ → Option ℤ
new_int_from_string s = in_range (set_string_base_0 s)

-- The longest front whose bytes all pass a test, and the rest.
abbrev pub span : (ℕ → Bool) → List ℕ → List ℕ × List ℕ
span p [] = ([], [])
span p (c ∷ cs) = let (front, rest) = span p cs in if p c then (c ∷ front, rest) else ([], c ∷ cs)

abbrev pub is_digit : ℕ → Bool
is_digit c = leb b'0' c && leb c b'9'

abbrev pub is_dot : ℕ → Bool
is_dot c = c == b'.'

-- `reAmt` and `reDecAmt` at the front of a string. What follows starts with a space or a letter, so the
-- longest match is the only one.
unfoldable pub amt_of : List ℕ × List ℕ → Option (List ℕ × List ℕ)
amt_of (amount, rest) = if length amount == 0 then none else some (amount, rest)

unfoldable pub match_amt : List ℕ → Option (List ℕ × List ℕ)
unfolding amt_of
match_amt s = amt_of (span is_digit s)

-- The digits, the points and the digits behind them, each with the rest.
unfoldable pub dec_amt_of :
    List ℕ × List ℕ → List ℕ × List ℕ → List ℕ × List ℕ → Option (List ℕ × List ℕ)
dec_amt_of (whole, rest) (dots, behind) (part, end_) =
    if not (length part == 0)
    then some (whole ++ (dots ++ part), end_)
    else if length dots == 0 && not (length whole == 0)
    then some (whole, rest)
    else none

unfoldable pub dec_amt_behind : List ℕ × List ℕ → List ℕ × List ℕ → Option (List ℕ × List ℕ)
unfolding dec_amt_of
dec_amt_behind whole dots = dec_amt_of whole dots (span is_digit dots.1)

unfoldable pub dec_amt_from : List ℕ × List ℕ → Option (List ℕ × List ℕ)
unfolding dec_amt_behind
dec_amt_from whole = dec_amt_behind whole (span is_dot whole.1)

unfoldable pub match_dec_amt : List ℕ → Option (List ℕ × List ℕ)
unfolding dec_amt_from
match_dec_amt s = dec_amt_from (span is_digit s)

-- `reCoin` and `reDecCoin`: the amount, white space, and the denomination up to the end.
unfoldable pub coin_of : Option (List ℕ × List ℕ) → Option (List ℕ × Denom)
coin_of none = none
coin_of (some (amount, rest)) =
    if matches_denom (trim_left rest) then some (amount, trim_left rest) else none

unfoldable pub match_coin : (List ℕ → Option (List ℕ × List ℕ)) → List ℕ → Option (List ℕ × Denom)
unfolding coin_of
match_coin amt s = coin_of (amt s)

-- `ParseCoin` behind the match.
unfoldable pub read_amount : Denom → Option ℤ → Result Coin
unfolding validate_denom Coin.new_coin
read_amount denom_str none = err invalid_coin_amount
read_amount denom_str (some amount) = validate_denom denom_str >> Coin.new_coin denom_str amount

unfoldable pub read_coin : Option (List ℕ × Denom) → Result Coin
unfolding new_int_from_string read_amount
read_coin none = err invalid_coin_expression
read_coin (some (amount_str, denom_str)) = read_amount denom_str (new_int_from_string amount_str)

unfoldable pub parse_coin : List ℕ → Result Coin
unfolding match_amt match_coin read_coin trim_space
parse_coin s = read_coin (match_coin match_amt (trim_space s))

-- `ParseDecCoin` behind the match.
unfoldable pub read_dec_coin : Option (List ℕ × Denom) → Result Coin
unfolding new_dec_from_str validate_denom DecCoin.new_dec_coin_from_dec
read_dec_coin none = err invalid_coin_expression
read_dec_coin (some (amount_str, denom_str)) = new_dec_from_str amount_str >>= λ amount.
    validate_denom denom_str >> DecCoin.new_dec_coin_from_dec denom_str amount

unfoldable pub parse_dec_coin : List ℕ → Result Coin
unfolding match_dec_amt match_coin read_dec_coin trim_space
parse_dec_coin s = read_dec_coin (match_coin match_dec_amt (trim_space s))

-- `Coin.String` and `DecCoin.String`
unfoldable pub coin_string : Coin → List ℕ
unfolding int_string
coin_string c = int_string c.amount ++ c.denom

unfoldable pub dec_coin_string : Coin → List ℕ
unfolding Dec.dec_string
dec_coin_string c = Dec.dec_string c.amount ++ c.denom

-- The end of `ParseCoins` and `ParseDecCoins`: the sorting and the test of the result.
unfoldable pub finish_set : List Coin → Result (List Coin)
unfolding sort is_valid
finish_set coins = err_if (not (is_valid (sort coins))) invalid_coin_set >> ok (sort coins)

-- What `ParseCoins` and `ParseDecCoins` have in common, line by line, and the two `String`, over the
-- parser and the text of one coin.
module _ (one : List ℕ → Result Coin) where
  unfoldable pub parse_parts : List (List ℕ) → Result (List Coin)
  parse_parts [] = ok []
  parse_parts (s ∷ ss) = do coin ← one s; coins ← parse_parts ss; ok (coin ∷ coins)

  unfoldable pub parse_split : List ℕ × List (List ℕ) → Result (List Coin)
  unfolding parse_parts finish_set
  parse_split (part, parts) = parse_parts (part ∷ parts) >>= finish_set

  unfoldable pub parse_trimmed : List ℕ → Result (List Coin)
  unfolding parse_split
  parse_trimmed s = if length s == 0 then ok [] else parse_split (split_on b',' s)

  unfoldable pub parse_set : List ℕ → Result (List Coin)
  unfolding parse_trimmed trim_space
  parse_set s = parse_trimmed (trim_space s)

module _ (text : Coin → List ℕ) where
  -- The loop: every coin with a comma behind it.
  unfoldable pub set_loop : List Coin → List ℕ
  set_loop [] = []
  set_loop (c ∷ cs) = (text c ++ b',' ∷ []) ++ set_loop cs

  unfoldable pub set_string : List Coin → List ℕ
  unfolding set_loop
  set_string [] = []
  set_string (c ∷ cs) = let out = set_loop (c ∷ cs) in take (length out - 1) out

unfoldable pub parse_coins : List ℕ → Result Coin.Coins
unfolding parse_coin parse_set
parse_coins s = parse_set parse_coin s

unfoldable pub parse_dec_coins : List ℕ → Result DecCoin.DecCoins
unfolding parse_dec_coin parse_set
parse_dec_coins s = parse_set parse_dec_coin s

unfoldable pub coins_string : Coin.Coins → List ℕ
unfolding coin_string set_string
coins_string cs = set_string coin_string cs

unfoldable pub dec_coins_string : DecCoin.DecCoins → List ℕ
unfolding dec_coin_string set_string
dec_coins_string cs = set_string dec_coin_string cs
