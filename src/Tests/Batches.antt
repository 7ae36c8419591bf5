-- ===== src/Tests/Batches.antt =====
-- A run of `SendBatch` of modules/base_client.go on a small node, with the cache on.
use plugchain_sdk_go.Prelude.{
  ℕ, ◌≡◌, ◌^◌, refl, sym, true, false, inl, inr, Bool-cases, List, [], ◌∷◌, Option, none, some, ok,
  ◌⊎◌,
}
use mathlib.Core.Path.{subst}
use plugchain_sdk_go.Prelude.Integer.{pos}
use plugchain_sdk_go.Denom.{denom_eq, compare_denom}
use plugchain_sdk_go.DecCoin.{DecCoin}
use plugchain_sdk_go.CoinType.{convert_to_min_coin, get_coin_type}
use plugchain_sdk_go.Int
use plugchain_sdk_go.Dec
use plugchain_sdk_go.Coin
use plugchain_sdk_go.Client.{
  Entry, address, account_info, token, BaseTx, ClientConfig, Services, ResultTx,
}
use plugchain_sdk_go.Client.Cache.{prefix_key, cache_get, cache_set, cache_set_with_expire}
use plugchain_sdk_go.Client.Tokens.{token_key, save_tokens}
use plugchain_sdk_go.Client.Batch.{send_batch}
use plugchain_sdk_go.Client.Serves.{
  IsName, IsNumbers, Converts, IsToken, HasToken, Serves, used_mode,
}
use plugchain_sdk_go.Client.Results.{DeliversAll, Panicked, send_batch-DeliversAll}
use plugchain_sdk_go.Client.Accepted.{Accepts, IsMode, send_batch-accepted}
use plugchain_sdk_go.Tests.Node.{
  World, entry_of, node_with, config_with, small_tx, atom_token, account_at,
}

-- Messages that are numbers; the text of an address begins with a mark, so that it is not a name.
abbrev marked_node : Services World ℕ
marked_node = record (node_with (ok (b'p' ∷ [], b'a' ∷ []))) { address_string = λ a. b'@' ∷ a }

abbrev one_atom : DecCoin
one_atom = record { denom = b'a' ∷ b't' ∷ b'o' ∷ b'm' ∷ []; amount = pos (10 ^ 18) }

-- The fee is an atom, and the sequence is that of the account.
abbrev paying : ClientConfig
paying = record (config_with true) { fee = one_atom ∷ [] }

abbrev plain_tx : BaseTx
plain_tx = record small_tx { account_number = 0; sequence = 0 }

abbrev name_key : List ℕ
name_key = prefix_key plain_tx.from_

abbrev atom_key : List ℕ
atom_key = token_key one_atom.denom

abbrev IsAtom : Option Entry → Type 0
IsAtom none = Unit
IsAtom (some (token t)) = t ≡ atom_token
IsAtom (some (address a)) = ⊥
IsAtom (some (account_info n s)) = ⊥

abbrev IsAddress : Option Entry → Type 0
IsAddress none = Unit
IsAddress (some (address a)) = Unit
IsAddress (some (account_info n s)) = ⊥
IsAddress (some (token t)) = ⊥

abbrev AreNumbers : Option Entry → Type 0
AreNumbers none = Unit
AreNumbers (some (account_info n s)) = Unit
AreNumbers (some (address a)) = ⊥
AreNumbers (some (token t)) = ⊥

-- Each key that the client uses has an entry of its kind.
abbrev Sorted : World → Type 0
Sorted w =
    IsAddress (entry_of name_key w)
    × ((addr : List ℕ) → AreNumbers (entry_of (prefix_key (b'@' ∷ addr)) w))
    × IsAtom (entry_of atom_key w)

name_saved : (a : List ℕ) (w : World) → Sorted w → Sorted ((name_key, address a) ∷ w)
unfolding prefix_key token_key compare_denom
name_saved a w (name, numbers, atom) = (tt, numbers, atom)

numbers_saved :
    (addr : List ℕ) (n s : ℕ) (w : World)
    → Sorted w
    → Sorted ((prefix_key (b'@' ∷ addr), account_info n s) ∷ w)
unfolding prefix_key token_key compare_denom
numbers_saved addr n s w (name, numbers, atom) = (name, with_others, atom)
  where
    with_others :
        (other : List ℕ)
        → AreNumbers (
            entry_of (prefix_key (b'@' ∷ other)) ((prefix_key (b'@' ∷ addr), account_info n s) ∷ w))
    with_others other = elim (Bool-cases (denom_eq addr other)) [
      | inl t ↦ rw t tt
      | inr t ↦ rw t (numbers other)
    ]

atom_saved :
    (w : World)
    → Sorted w
    → Sorted ((token_key atom_token.min_unit, token atom_token) ∷ (atom_key, token atom_token) ∷ w)
unfolding prefix_key token_key compare_denom
atom_saved w (name, numbers, atom) = (name, numbers, refl)

entry-IsName :
    (found : Option Entry) → IsAddress found → IsName marked_node paying plain_tx Sorted found
entry-IsName none h = tt
entry-IsName (some (address a)) h = (a, refl)
entry-IsName (some (account_info n s)) h = elim h [ ]
entry-IsName (some (token t)) h = elim h [ ]

entry-IsNumbers :
    (found : Option Entry) → AreNumbers found → IsNumbers marked_node paying plain_tx Sorted found
entry-IsNumbers none h = tt
entry-IsNumbers (some (account_info n s)) h = tt
entry-IsNumbers (some (address a)) h = elim h [ ]
entry-IsNumbers (some (token t)) h = elim h [ ]

atom-Converts : Converts marked_node paying plain_tx Sorted one_atom atom_token
unfolding convert_to_min_coin get_coin_type plugchain_sdk_go.CoinType.trim_space
    plugchain_sdk_go.CoinType.rescale plugchain_sdk_go.CoinType.get_scale_factor
    plugchain_sdk_go.CoinType.has_unit plugchain_sdk_go.CoinType.is_main_unit
    plugchain_sdk_go.CoinType.is_min_unit compare_denom plugchain_sdk_go.Denom.matches_denom
    plugchain_sdk_go.Denom.must_validate_denom plugchain_sdk_go.Denom.validate_denom
    plugchain_sdk_go.Prelude.BitLen.bit_len plugchain_sdk_go.Dec.mul plugchain_sdk_go.Dec.checked
    plugchain_sdk_go.Dec.chop_precision_and_round plugchain_sdk_go.Dec.new_dec_from_int
    plugchain_sdk_go.Dec.quo plugchain_sdk_go.Dec.scaled_quo plugchain_sdk_go.Dec.round_int
    plugchain_sdk_go.Dec.big_quo plugchain_sdk_go.Dec.chop_precision_and_truncate
    plugchain_sdk_go.Dec.round_half_even plugchain_sdk_go.Dec.truncate_int
    plugchain_sdk_go.Coin.new_coin plugchain_sdk_go.Coin.validate
    plugchain_sdk_go.DecCoin.new_dec_coin_from_dec plugchain_sdk_go.DecCoin.truncate_decimal_coin
    plugchain_sdk_go.Int.is_negative plugchain_sdk_go.Int.new_int_from_big_int
    plugchain_sdk_go.Int.new_int_with_decimal plugchain_sdk_go.Prelude.Integer.◌*ℤ◌
    plugchain_sdk_go.Prelude.Integer.quo plugchain_sdk_go.Prelude.Integer.neg
    plugchain_sdk_go.Prelude.Integer.◌-ℤ◌
atom-Converts = (record { denom = atom_token.min_unit; amount = pos (10 ^ 6) }, refl)

entry-IsToken :
    (found : Option Entry)
    → IsAtom found
    → IsToken marked_node paying plain_tx Sorted one_atom found
entry-IsToken none h = tt
entry-IsToken (some (token t)) h =
    subst (Converts marked_node paying plain_tx Sorted one_atom) (sym h) atom-Converts
entry-IsToken (some (address a)) h = elim h [ ]
entry-IsToken (some (account_info n s)) h = elim h [ ]

one_atom-HasToken : HasToken marked_node paying plain_tx Sorted one_atom
unfolding cache_get cache_set save_tokens
one_atom-HasToken = (
  λ w kinds. (entry-IsToken _ kinds.2, kinds),
  λ w kinds. (atom_token, w, refl, atom-Converts, atom_saved w kinds),
)

marked_node-Serves : Serves marked_node paying plain_tx Sorted
unfolding cache_get cache_set_with_expire
marked_node-Serves = record {
  chain_named = refl;
  name_found = λ w kinds. (entry-IsName _ kinds.0, kinds);
  numbers_found = λ addr w kinds. (entry-IsNumbers _ (kinds.1 addr), kinds);
  key_found =
      λ w kinds. ((b'p' ∷ [], b'a' ∷ []), w, refl, kinds, name_saved (b'@' ∷ b'a' ∷ []) w kinds);
  numbers_saved = λ addr n s w kinds. numbers_saved addr n s w kinds;
  account_answered = λ addr w kinds. (account_at (b'@' ∷ addr), w, refl, refl, kinds);
  fee_known = (one_atom-HasToken, tt);
  bytes_made = λ d tx. ([], refl);
  bytes_signed = λ bytes w kinds. (bytes, w, refl, tt, kinds);
  packed = λ m. refl;
  encoded = λ tx. ([], refl);
}

marked_node-Accepts : Accepts marked_node paying plain_tx Sorted
marked_node-Accepts = record {
  committed = λ tx w kinds. (_, w, refl, (refl, refl), kinds);
  synced = λ tx w kinds. (_, w, refl, refl, kinds);
  hashed = λ tx w kinds. (tx, w, refl, tt, kinds);
  estimated = λ tx w kinds. (1, w, refl, tt, kinds);
}

sync-known :
    IsMode marked_node paying plain_tx Sorted (used_mode marked_node paying plain_tx Sorted)
unfolding compare_denom
sync-known = refl

-- The results and the last state of that run.
three_sent :
    (rs : List ResultTx) × (w' : World) × (send_batch marked_node paying plain_tx
        (1 ∷ 2 ∷ 3 ∷ [])
        []
      ≡ ((rs, none), w'))
three_sent =
    let (mss, rs, w', e, _, _, _) =
      send_batch-accepted marked_node paying plain_tx Sorted marked_node-Accepts marked_node-Serves
        sync-known 1 (2 ∷ 3 ∷ []) [] (refl, (refl, (refl, tt))) (tt, (λ addr. tt), tt) in
    (rs, w', e)

send_batch-DeliversAll_example :
    DeliversAll marked_node paying plain_tx (1 ∷ 2 ∷ 3 ∷ []) three_sent.0 [] three_sent.1
    ⊎ Panicked marked_node paying plain_tx (1 ∷ 2 ∷ 3 ∷ []) three_sent.0 [] three_sent.1
send_batch-DeliversAll_example =
    send_batch-DeliversAll marked_node paying plain_tx (1 ∷ 2 ∷ 3 ∷ []) three_sent.0 [] three_sent.1
      three_sent.2
