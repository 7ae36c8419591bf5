-- ===== src/CoinText/RoundTrip.antt =====
-- `ParseCoins` and `ParseDecCoins` read back what `String` writes of a set of coins.
use plugchain_sdk_go.Prelude.{
  ℕ, ◌-◌, ◌<◌, ◌≡◌, refl, sym, ap, ◌∙◌, arith, true, false, ◌==◌, List, [], ◌∷◌, ◌++◌, append-nil,
  append_assoc, length, length-append, take-length-append, map, All, All-append, Result, ok, ◌>>=◌,
}
use plugchain_sdk_go.Prelude.Integer.{ℤ, pos, negsuc, ltb_ℤ}
use plugchain_sdk_go.Prelude.Text.{split_on, split_on-none, split_on-append}
use plugchain_sdk_go.CoinType.{trim_space}
use plugchain_sdk_go.Denom.Order.{compare_denom_flip}
use plugchain_sdk_go.CoinSet.{Coin, sort, insert_coin}
use plugchain_sdk_go.CoinSet.Sorted.{IsSorted, Below}
use plugchain_sdk_go.CoinSet.Valid.{Proper, is_valid_complete}
use plugchain_sdk_go.Int.{too_long}
use plugchain_sdk_go.Coin.{Coins}
use plugchain_sdk_go.Dec
use plugchain_sdk_go.DecCoin.{DecCoins}
use plugchain_sdk_go.Denom.{matches_denom}
use plugchain_sdk_go.CoinText.{
  int_string, parse_parts, finish_set, parse_split, parse_trimmed, parse_set, set_loop, set_string,
  parse_coin, parse_dec_coin, coin_string, dec_coin_string, parse_coins, parse_dec_coins,
  coins_string, dec_coins_string,
}
use plugchain_sdk_go.CoinText.Scan.{
  matches_denom-IsSolid, IsSolid, IsVisible, IsVisible-of_IsSolid, trim_space-IsVisible, no_comma,
}
use plugchain_sdk_go.CoinText.Amounts.{
  IsWritten, dec_coin_string-IsSolid, coin_string-IsSolid, parse_dec_coin-dec_coin_string,
  parse_coin-coin_string,
}

-- A sorted set is what sorting makes of it.
sort-IsSorted : (cs : List Coin) → IsSorted cs → sort cs ≡ cs
unfolding sort
sort-IsSorted [] s = refl
sort-IsSorted (c ∷ cs) (b, s) = rw (sort-IsSorted cs s) (first c cs b)
  where
    first : (c : Coin) (cs : List Coin) → Below c.denom cs → insert_coin c cs ≡ c ∷ cs
    first c [] b = refl
    first c (d ∷ cs) (o, b) = rw (compare_denom_flip c.denom d.denom, o) refl

finish_set-IsSorted : (cs : List Coin) → IsSorted cs → All Proper cs → finish_set cs ≡ ok cs
unfolding finish_set
finish_set-IsSorted cs s p = rw (sort-IsSorted cs s, is_valid_complete cs s p) refl

-- A proper coin can be written.
pub Proper-IsWritten : (c : Coin) → Proper c → IsWritten c
Proper-IsWritten c (m, _, p) = record { pattern_matched = m; amount = not_negative c.amount p }
  where
    not_negative : (a : ℤ) → ltb_ℤ (pos 0) a ≡ true → (n : ℕ) × (a ≡ pos n)
    not_negative (pos n) h = (n, refl)
    not_negative (negsuc n) h = absurd (ground arith)

module _ (text : Coin → List ℕ) where
  -- The texts with a comma between them.
  commas : Coin → List Coin → List ℕ
  commas c [] = text c
  commas c (d ∷ cs) = text c ++ b',' ∷ commas d cs

  set_loop-commas : (c : Coin) (cs : List Coin) → set_loop text (c ∷ cs) ≡ commas c cs ++ b',' ∷ []
  unfolding set_loop commas
  set_loop-commas c [] = append-nil (text c ++ b',' ∷ [])
  set_loop-commas c (d ∷ cs) =
      ap (λ r. (text c ++ b',' ∷ []) ++ r) (set_loop-commas d cs)
      ∙ append_assoc (text c) (b',' ∷ []) (commas d cs ++ b',' ∷ [])
      ∙ sym (append_assoc (text c) (b',' ∷ commas d cs) (b',' ∷ []))

  set_string-commas : (c : Coin) (cs : List Coin) → set_string text (c ∷ cs) ≡ commas c cs
  unfolding set_string
  set_string-commas c cs =
      let whole = set_loop-commas c cs in
      let long : length (commas c cs ++ b',' ∷ []) - 1 ≡ length (commas c cs) =
        omega (arith, length-append {0} (commas c cs) (b',' ∷ [])) in
      rw (whole, long) (take-length-append (commas c cs) (b',' ∷ []))

  -- A set whose coins have texts without separators, each read back by `one`.
  module _ (one : List ℕ → Result Coin) where
    abbrev ReadsBack : Coin → Type 0
    ReadsBack c = All IsSolid (text c) × (one (text c) ≡ ok c)

    commas-IsVisible :
        (c : Coin) (cs : List Coin) → All ReadsBack (c ∷ cs) → All IsVisible (commas c cs)
    unfolding commas
    commas-IsVisible c [] (h, _) = IsVisible-of_IsSolid (text c) h.0
    commas-IsVisible c (d ∷ cs) (h, rest) =
        All-append _ (text c) (b',' ∷ commas d cs) (IsVisible-of_IsSolid (text c) h.0)
          (refl, commas-IsVisible d cs rest)

    split_on-commas :
        (c : Coin) (cs : List Coin)
        → All ReadsBack (c ∷ cs)
        → split_on b',' (commas c cs) ≡ (text c, map text cs)
    unfolding commas
    split_on-commas c [] (h, _) = split_on-none b',' (text c) (no_comma (text c) h.0)
    split_on-commas c (d ∷ cs) (h, rest) =
        split_on-append b',' (text c) (commas d cs) (no_comma (text c) h.0)
        ∙ rw (split_on-commas d cs rest) refl

    parse_parts-map : (cs : List Coin) → All ReadsBack cs → parse_parts one (map text cs) ≡ ok cs
    unfolding parse_parts
    parse_parts-map [] h = refl
    parse_parts-map (c ∷ cs) (h, rest) = rw (h.1, parse_parts-map cs rest) refl

    commas_filled :
        (c : Coin) (cs : List Coin)
        → (length (text c) == 0) ≡ false
        → (length (commas c cs) == 0) ≡ false
    unfolding commas
    commas_filled c [] h = h
    commas_filled c (d ∷ cs) h =
        let long = length-append (text c) (b',' ∷ commas d cs) in ground arith

    parse_split-map :
        (c : Coin) (cs : List Coin)
        → IsSorted (c ∷ cs)
        → All Proper (c ∷ cs)
        → All ReadsBack (c ∷ cs)
        → parse_split one (text c, map text cs) ≡ ok (c ∷ cs)
    unfolding parse_split
    parse_split-map c cs s p h =
        ap (λ r. r >>= finish_set) (parse_parts-map (c ∷ cs) h) ∙ finish_set-IsSorted (c ∷ cs) s p

    -- A sorted set of proper coins is read back from its text.
    parse_set-set_string :
        (cs : List Coin)
        → IsSorted cs
        → All Proper cs
        → All ReadsBack cs
        → All (λ c. (length (text c) == 0) ≡ false) cs
        → parse_set one (set_string text cs) ≡ ok cs
    unfolding parse_set parse_trimmed
    parse_set-set_string [] s p h f = unfold set_string trim_space in refl
    parse_set-set_string (c ∷ cs) s p h (f, _) =
        let trimmed = trim_space-IsVisible (commas c cs) (commas-IsVisible c cs h) in
        let filled = commas_filled c cs f in
        ap (λ t. parse_trimmed one (trim_space t)) (set_string-commas c cs)
        ∙ ap (parse_trimmed one) trimmed
        ∙ (rw (filled, split_on-commas c cs h) (parse_split-map c cs s p h))

filled : (amount d : List ℕ) → matches_denom d ≡ true → (length (amount ++ d) == 0) ≡ false
filled amount d m =
    let (c, cs, e, _, _) = matches_denom-IsSolid d m in
    let long = length-append amount d in
    let nonempty : 0 < length d = rw e (omega arith) in ground arith

-- The two texts of a coin are not empty, and are read back.
dec_coin_string_filled : (c : Coin) → IsWritten c → (length (dec_coin_string c) == 0) ≡ false
unfolding dec_coin_string
dec_coin_string_filled c w = filled (Dec.dec_string c.amount) c.denom w.pattern_matched

coin_string_filled : (c : Coin) → IsWritten c → (length (coin_string c) == 0) ≡ false
unfolding coin_string
coin_string_filled c w = filled (int_string c.amount) c.denom w.pattern_matched

all_of : {P Q : Coin → Type 0} → ((c : Coin) → P c → Q c) → (cs : List Coin) → All P cs → All Q cs
all_of f [] h = tt
all_of f (c ∷ cs) (p, h) = (f c p, all_of f cs h)

-- A sorted set of decimal coins whose denominations match the pattern and hold no capital
-- letters, and whose amounts are positive, is what ParseDecCoins makes of the text that String
-- writes.
pub parse_dec_coins-dec_coins_string :
    (cs : DecCoins) → IsSorted cs → All Proper cs → parse_dec_coins (dec_coins_string cs) ≡ ok cs
unfolding parse_dec_coins dec_coins_string
parse_dec_coins-dec_coins_string cs s p =
    let written = all_of Proper-IsWritten cs p in
    parse_set-set_string dec_coin_string parse_dec_coin cs s p
      (all_of (λ c w. (dec_coin_string-IsSolid c w, parse_dec_coin-dec_coin_string c w)) cs written)
      (all_of dec_coin_string_filled cs written)

-- A coin that `ParseCoin` can read back.
abbrev pub InRange : Coin → Type 0
InRange c = too_long c.amount ≡ false

all_and : (P Q : Coin → Type 0) (cs : List Coin) → All P cs → All Q cs → All (λ c. P c × Q c) cs
all_and P Q [] p q = tt
all_and P Q (c ∷ cs) (p, ps) (q, qs) = ((p, q), all_and P Q cs ps qs)

-- A sorted set of coins whose denominations match the pattern and hold no capital letters, and
-- whose amounts are positive and of at most 255 bits, is what ParseCoins makes of the text
-- that String writes.
pub parse_coins-coins_string :
    (cs : Coins)
    → IsSorted cs
    → All Proper cs
    → All InRange cs
    → parse_coins (coins_string cs) ≡ ok cs
unfolding parse_coins coins_string
parse_coins-coins_string cs s p r =
    let written = all_of Proper-IsWritten cs p in
    parse_set-set_string coin_string parse_coin cs s p
      (all_of (λ c (w, h). (coin_string-IsSolid c w, parse_coin-coin_string c w h)) cs
        (all_and IsWritten InRange cs written r))
      (all_of coin_string_filled cs written)
