-- ===== src/Tests/Clients.antt =====
-- Runs of the cache of modules/account.go and of `SubArray` of utils/commom.go on a small node.
use plugchain_sdk_go.Prelude.{ℕ, ◌≡◌, refl, arith, true, List, [], ◌∷◌, ok}
use plugchain_sdk_go.Denom.Order.{denom_eq_self}
use plugchain_sdk_go.Client.{Services, account_info}
use plugchain_sdk_go.Client.Cache.{
  prefix_key, cache_get, cache_set_with_expire, refresh, save_account, account_of,
  query_and_refresh_account,
}
use plugchain_sdk_go.Client.Batch.{sub_array, segments_loop}
use plugchain_sdk_go.Client.Sequence.{
  Remembers, Forgets, Answers, sequences, query_and_refresh_account-count_up,
}
use plugchain_sdk_go.Tests.Node.{
  World, entry_of-without, without, account_at, node_with, config_with,
}

-- Messages that are numbers.
abbrev good_node : Services World ℕ
good_node = node_with (ok (b'p' ∷ [], b'a' ∷ []))

good_node-Remembers : Remembers good_node (config_with true)
good_node-Remembers key v w = ((key, v) ∷ w, rw (denom_eq_self key) refl)

good_node-Forgets : Forgets good_node (config_with true)
good_node-Forgets key w = (without key w, rw (entry_of-without key w) refl)

good_node-Answers : Answers good_node (config_with true)
good_node-Answers addr account w w1 h = cc

abbrev addr : List ℕ
addr = b'a' ∷ []

-- The cache after the first call.
abbrev first_saved : World
first_saved = (prefix_key addr, account_info 7 5) ∷ []

first_call :
    query_and_refresh_account good_node (config_with true) addr []
    ≡ (ok (account_at addr), first_saved)
unfolding query_and_refresh_account account_of refresh save_account cache_get cache_set_with_expire
first_call = refl

query_and_refresh_account-count_up_example :
    (w2 : World) × (sequences good_node (config_with true) 3 addr first_saved
      ≡ (ok (6 ∷ 7 ∷ 8 ∷ []), w2))
query_and_refresh_account-count_up_example =
    query_and_refresh_account-count_up good_node (config_with true) 3 addr (account_at addr) []
      first_saved refl good_node-Remembers good_node-Answers first_call (omega arith)

abbrev five : List ℕ
five = 1 ∷ 2 ∷ 3 ∷ 4 ∷ 5 ∷ []

sub_array-five : sub_array 2 five ≡ ok ((1 ∷ 2 ∷ []) ∷ (3 ∷ 4 ∷ []) ∷ (5 ∷ []) ∷ [])
unfolding sub_array segments_loop
sub_array-five = refl
