-- ===== src/Client/Sequence.antt =====
-- The account numbers that `QueryAndRefreshAccount` of modules/account.go gives out.
use plugchain_sdk_go.Prelude.{
  ℕ, zero, suc, ◌+◌, ◌<◌, ◌^◌, arith, ◌≡◌, refl, sym, ap, ◌∙◌, inl, inr, Bool, true, false,
  Bool-cases, if-true, if-false, List, [], ◌∷◌, Option, none, some, Result, ok, err, panic,
}
use mathlib.Core.Path.{subst}
use plugchain_sdk_go.Client.{
  Io, continue, ◌>>=◌, pure, Entry, address, account_info, token, BaseAccount, ClientConfig,
  Services,
}
use plugchain_sdk_go.Client.Cache.{
  prefix_key, next_sequence, cache_get, cache_set_with_expire, cache_remove, save_account, refresh,
  account_of, query_and_refresh_account, remove_cache,
}

-- Below 2^64 the next sequence is the number behind.
next_sequence-eq : (s : ℕ) → s + 1 < 2 ^ 64 → next_sequence s ≡ s + 1
next_sequence-eq s room = omega arith

-- The `n` numbers behind `s`, in their order: `s + 1`, `s + 2` and so on.
abbrev pub count_up : ℕ → ℕ → List ℕ
count_up zero s = []
count_up (suc n) s = (s + 1) ∷ count_up n (s + 1)

module _ {W Msg : Type 0} (node : Services W Msg) (cfg : ClientConfig) where
  -- A cache that has room and time: what was just written is found.
  abbrev pub Remembers : Type 0
  Remembers =
      (key : List ℕ) (v : Entry) (w : W)
      → (w1 : W) × (node.get key (node.set_with_expire key v w).1 ≡ (some v, w1))

  -- What was just removed is not found.
  abbrev pub Forgets : Type 0
  Forgets = (key : List ℕ) (w : W) → (w1 : W) × (node.get key (node.remove key w).1 ≡ (none, w1))

  -- The chain answers with the account that it was asked for.
  abbrev pub Answers : Type 0
  Answers =
      (addr : List ℕ) (account : BaseAccount) (w w1 : W)
      → node.query_account addr w ≡ (ok account, w1)
      → account.address ≡ addr

  -- The state right after the numbers of an account were saved.
  abbrev Saved : List ℕ → ℕ → ℕ → W → Type 0
  Saved addr number seq w =
      (w0 : W) × (w
        ≡ (cache_set_with_expire node cfg (prefix_key addr) (account_info number seq) w0).1)

  saved : List ℕ → BaseAccount → W → W
  saved addr account w =
      (cache_set_with_expire node cfg (prefix_key addr)
        (account_info account.account_number account.sequence) w).1

  abbrev numbered : List ℕ → ℕ → ℕ → BaseAccount
  numbered addr n s = record {
    address = addr;
    coins = [];
    pub_key = [];
    account_number = n;
    sequence = s;
  }

  next_account : List ℕ → ℕ → ℕ → BaseAccount
  next_account addr n s = numbered addr n (next_sequence s)

  -- The account of `n` more calls: their sequences.
  abbrev pub sequences : ℕ → List ℕ → Io W (List ℕ)
  sequences zero addr = pure (ok [])
  sequences (suc n) addr = query_and_refresh_account node cfg addr >>= λ account.
      sequences n addr >>= λ rest. pure (ok (account.sequence ∷ rest))

  refresh-Saved :
      (addr : List ℕ) (account : BaseAccount) (w1 : W) (r : Result BaseAccount × W) (w : W)
      → Answers
      → node.query_account addr w ≡ r
      → continue (λ a after. (ok a, save_account node cfg a after)) r ≡ (ok account, w1)
      → Saved addr account.account_number account.sequence w1
  unfolding save_account saved
  refresh-Saved addr account w1 (ok a, w2) w answers e h =
      let same_a : a ≡ account = cc in
      let same_w : save_account node cfg a w2 ≡ w1 = cc in
      let here : a.address ≡ addr = answers addr a w w2 e in
      (w2, sym same_w ∙ rw here (ap (λ x. saved addr x w2) same_a))
  refresh-Saved addr account w1 (err e2, w2) w answers e h = cc
  refresh-Saved addr account w1 (panic p, w2) w answers e h = cc

  account_of-Saved :
      (addr : List ℕ) (account : BaseAccount) (w1 : W) (found : Option Entry × W)
      → Answers
      → account_of node cfg addr found ≡ (ok account, w1)
      → Saved addr account.account_number account.sequence w1
  unfolding account_of save_account saved next_account
  account_of-Saved addr account w1 (none, w) answers h =
      refresh-Saved addr account w1 _ w answers refl (unfold refresh in h)
  account_of-Saved addr account w1 (some (account_info n s), w) answers h =
      let same_a : next_account addr n s ≡ account = cc in
      let same_w : saved addr (next_account addr n s) w ≡ w1 = cc in
      (w, sym same_w ∙ ap (λ x. saved addr x w) same_a)
  account_of-Saved addr account w1 (some (address a), w) answers h = cc
  account_of-Saved addr account w1 (some (token t), w) answers h = cc

  -- An account that a call returned has been saved with its numbers.
  query-Saved :
      (addr : List ℕ) (account : BaseAccount) (w w1 : W)
      → Answers
      → query_and_refresh_account node cfg addr w ≡ (ok account, w1)
      → Saved addr account.account_number account.sequence w1
  unfolding query_and_refresh_account
  query-Saved addr account w w1 answers h = account_of-Saved addr account w1 _ answers h

  -- The next call finds the numbers that were saved.
  query_next :
      (addr : List ℕ) (n s : ℕ) (w : W)
      → cfg.cached ≡ true
      → Remembers
      → Saved addr n s w
      → (w1 : W) × (query_and_refresh_account node cfg addr w ≡ (ok (next_account addr n s), w1))
        × Saved addr n (next_sequence s) w1
  unfolding query_and_refresh_account cache_get cache_set_with_expire next_account
  query_next addr n s w t keep (w0, e) =
      let key = prefix_key addr in
      let written : w ≡ (node.set_with_expire key (account_info n s) w0).1 =
        e ∙ sym (ap (λ (x : Bool × W). x.1) (if-true cfg.cached _ _ t refl)) in
      let (w1, hit) = keep key (account_info n s) w0 in
      let looked : cache_get node cfg key w ≡ (some (account_info n s), w1) =
        sym (if-true cfg.cached _ _ t refl) ∙ rw written hit in
      (_, ap (account_of node cfg addr) looked ∙ unfold account_of save_account in refl, (w1, refl))

  sequences_next :
      (n : ℕ) (addr : List ℕ) (number s : ℕ) (w : W)
      → s + n < 2 ^ 64
      → cfg.cached ≡ true
      → Remembers
      → Saved addr number s w
      → (w2 : W) × (sequences n addr w ≡ (ok (count_up n s), w2))
  unfolding next_account
  sequences_next zero addr number s w room t keep before = (w, refl)
  sequences_next (suc n) addr number s w room t keep before =
      let (w1, call, after) = query_next addr number s w t keep before in
      let counted = next_sequence-eq s (omega arith) in
      let call1 : query_and_refresh_account node cfg addr w
          ≡ (ok (numbered addr number (s + 1)), w1) =
        call ∙ ap (λ k. (ok (numbered addr number k), w1)) counted in
      let (w2, rest) =
        sequences_next n addr number (s + 1) w1 (omega arith) t keep
          (subst (λ k. Saved addr number k w1) counted after) in
      let tail = ap (continue (λ seqs. pure (ok ((s + 1) ∷ seqs)))) rest in
      (
        w2,
        ap (continue (λ account. sequences n addr >>= λ seqs. pure (ok (account.sequence ∷ seqs))))
              call1
            ∙ tail,
      )

  -- With the cache on, a cache that finds what was just written and a chain that answers with
  -- the account that it was asked for, the `n` calls behind one that returned an account with
  -- the sequence `s` return the sequences `s + 1`, `s + 2` and so on up to `s + n`, without a
  -- gap and without a repetition, as long as `s + n` is below 2^64.
  pub query_and_refresh_account-count_up :
      (n : ℕ) (addr : List ℕ) (account : BaseAccount) (w w1 : W)
      → cfg.cached ≡ true
      → Remembers
      → Answers
      → query_and_refresh_account node cfg addr w ≡ (ok account, w1)
      → account.sequence + n < 2 ^ 64
      → (w2 : W) × (sequences n addr w1 ≡ (ok (count_up n account.sequence), w2))
  query_and_refresh_account-count_up n addr account w w1 t keep answers h room =
      sequences_next n addr account.account_number account.sequence w1 room t keep
        (query-Saved addr account w w1 answers h)

  -- After the cached numbers of an account are removed, which is what a failed broadcast does,
  -- the next numbers are those that the chain gives, if the cache does not find what was just
  -- removed; without the cache they always are.
  pub query_and_refresh_account-remove_cache :
      (addr : List ℕ) (w : W)
      → Forgets
      → (w1 : W) × (query_and_refresh_account node cfg addr (remove_cache node cfg addr w)
          ≡ refresh node cfg addr w1)
  unfolding query_and_refresh_account cache_get remove_cache cache_remove
  query_and_refresh_account-remove_cache addr w forgets = elim (Bool-cases cfg.cached) [
    | inl t ↦
        let key = prefix_key addr in
        let (w1, miss) = forgets key w in
        let removed =
          ap (λ (x : Bool × W). x.1) (if-true cfg.cached (node.remove key w) (false, w) t refl) in
        (
          w1,
          ap (account_of node cfg addr)
                (sym (if-true cfg.cached _ _ t refl) ∙ ap (node.get key) (sym removed) ∙ miss)
              ∙ unfold account_of in refl,
        )
    | inr t ↦ (
      _,
      ap (account_of node cfg addr) (sym (if-false cfg.cached _ _ t refl))
          ∙ unfold account_of in refl,
    )
  ]
