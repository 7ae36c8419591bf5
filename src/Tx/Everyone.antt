-- ===== src/Tx/Everyone.antt =====
-- types/tx/types.go: who must sign a transaction, against the list of all the signers of its messages.
use plugchain_sdk_go.Prelude.{
  ℕ, ◌≡◌, refl, sym, ap, ◌∙◌, arith, true, false, ◌||◌, Bool-cases, inl, inr, List, [], ◌∷◌, ◌++◌,
  ok, ok-injective,
}
use plugchain_sdk_go.Denom.{denom_eq}
use plugchain_sdk_go.Denom.Order.{eq_of_denom_eq, denom_eq_self}
use plugchain_sdk_go.Tx.{ProtoTx, Proto}
use plugchain_sdk_go.Tx.Signers.{
  is_seen, Signers, get_msgs, add_signer, add_signers, signers_loop, get_signers,
}

abbrev pub AllDistinct : List (List ℕ) → Type 0
AllDistinct [] = Unit
AllDistinct (s ∷ ss) = (is_seen s ss ≡ false) × AllDistinct ss

is_seen-append :
    (s : List ℕ) (xs ys : List (List ℕ)) → is_seen s (xs ++ ys) ≡ (is_seen s xs || is_seen s ys)
is_seen-append s [] ys = refl
is_seen-append s (x ∷ xs) ys = let rest = is_seen-append s xs ys in ground arith

not_equal : (s t : List ℕ) → denom_eq s t ≡ false → denom_eq t s ≡ false
not_equal s t h = elim (Bool-cases (denom_eq t s)) [
  | inl same ↦
      let back : denom_eq s t ≡ true = rw (eq_of_denom_eq t s same) (denom_eq_self s) in absurd (cc)
  | inr apart ↦ apart
]

AllDistinct-append :
    (ss : List (List ℕ)) (s : List ℕ)
    → AllDistinct ss
    → is_seen s ss ≡ false
    → AllDistinct (ss ++ s ∷ [])
AllDistinct-append [] s d h = (refl, tt)
AllDistinct-append (t ∷ ss) s (first, d) h =
    let apart : denom_eq t s ≡ false = not_equal s t (ground (arith, h)) in
    let rest : is_seen s ss ≡ false = ground (arith, h) in
    let e = is_seen-append t ss (s ∷ []) in (ground arith, AllDistinct-append ss s d rest)

module _ {A K Msg : Type 0} (proto : Proto A K Msg) where
  abbrev pub texts : List (List ℕ) → List (List ℕ)
  texts [] = []
  texts (addr ∷ addrs) = proto.address_string addr ∷ texts addrs

  -- The signers of all the messages, one after the other.
  abbrev pub all_signers : List Msg → List (List ℕ)
  all_signers [] = []
  all_signers (msg ∷ msgs) = proto.msg_signers msg ++ all_signers msgs

  texts-append : (xs ys : List (List ℕ)) → texts (xs ++ ys) ≡ texts xs ++ texts ys
  texts-append [] ys = refl
  texts-append (x ∷ xs) ys = ap (λ r. proto.address_string x ∷ r) (texts-append xs ys)

  -- What the loops keep: the signers are distinct, and their texts are those that are seen.
  record Tracks (state : Signers proto) : Type 0 where
    seen_texts : (s : List ℕ) → is_seen s state.1 ≡ is_seen s (texts state.0)
    distinct : AllDistinct (texts state.0)

  Adds : List (List ℕ) → Signers proto → Signers proto → Type 0
  Adds ss state state' =
      Tracks state' × ((s : List ℕ) → is_seen s state'.1 ≡ (is_seen s state.1 || is_seen s ss))

  already_seen :
      (s t : List ℕ) (seen : List (List ℕ))
      → is_seen t seen ≡ true
      → is_seen s seen ≡ (is_seen s seen || (denom_eq s t || false))
  already_seen s t seen h = elim (Bool-cases (denom_eq s t)) [
    | inl same ↦ let there : is_seen s seen ≡ true = rw (eq_of_denom_eq s t same) h in ground arith
    | inr apart ↦ ground arith
  ]

  add_signer-Tracks :
      (addr : List ℕ) (signers seen : List (List ℕ))
      → Tracks (signers, seen)
      → is_seen (proto.address_string addr) seen ≡ false
      → Tracks (signers ++ addr ∷ [], proto.address_string addr ∷ seen)
  add_signer-Tracks addr signers seen h f = record {
    seen_texts = λ s.
        let same : is_seen s seen ≡ is_seen s (texts signers) = h.seen_texts s in
        rw (texts-append signers (addr ∷ []), is_seen-append s (texts signers) (texts (addr ∷ [])))
          (ground arith);
    distinct = rw (texts-append signers (addr ∷ [])) (
        AllDistinct-append (texts signers) (proto.address_string addr) h.distinct
          (sym (h.seen_texts (proto.address_string addr)) ∙ f));
  }

  add_signer-Adds :
      (addr : List ℕ) (state : Signers proto)
      → Tracks state
      → Adds (texts (addr ∷ [])) state (add_signer proto addr state)
  unfolding add_signer Adds
  add_signer-Adds addr (signers, seen) h =
      elim (Bool-cases (is_seen (proto.address_string addr) seen)) [
        | inl t ↦ rw t (h, (λ s. already_seen s (proto.address_string addr) seen t))
        | inr f ↦ rw f (add_signer-Tracks addr signers seen h f, (λ s. ground arith))
      ]

  Adds-trans :
      (xs ys : List (List ℕ)) (first second third : Signers proto)
      → Adds (texts xs) first second
      → Adds (texts ys) second third
      → Adds (texts (xs ++ ys)) first third
  unfolding Adds
  Adds-trans xs ys first second third (_, e) (tracks, e1) = (
    tracks,
    (λ s.
        let here = e s in
        let there = e1 s in
        rw (texts-append xs ys, is_seen-append s (texts xs) (texts ys)) (ground arith)),
  )

  nothing_added : (state : Signers proto) → Tracks state → Adds (texts []) state state
  unfolding Adds
  nothing_added state h = (h, (λ s. ground arith))

  Adds-Tracks :
      (xs : List (List ℕ)) (state state' : Signers proto)
      → Adds (texts xs) state state'
      → Tracks state'
  unfolding Adds
  Adds-Tracks xs state state' (h, _) = h

  add_signers-Adds :
      (addrs : List (List ℕ)) (state : Signers proto)
      → Tracks state
      → Adds (texts addrs) state (add_signers proto addrs state)
  unfolding add_signers
  add_signers-Adds [] state h = nothing_added state h
  add_signers-Adds (addr ∷ addrs) state h =
      let first = add_signer-Adds addr state h in
      Adds-trans (addr ∷ []) addrs state (add_signer proto addr state) _ first (
        add_signers-Adds addrs (add_signer proto addr state)
          (Adds-Tracks (addr ∷ []) state _ first))

  signers_loop-Adds :
      (msgs : List Msg) (state : Signers proto)
      → Tracks state
      → Adds (texts (all_signers msgs)) state (signers_loop proto msgs state)
  unfolding signers_loop
  signers_loop-Adds [] state h = nothing_added state h
  signers_loop-Adds (msg ∷ msgs) state h =
      let addrs = proto.msg_signers msg in
      let first = add_signers-Adds addrs state h in
      Adds-trans addrs (all_signers msgs) state (add_signers proto addrs state) _ first
        (signers_loop-Adds msgs (add_signers proto addrs state) (Adds-Tracks addrs state _ first))

  -- The addresses that must sign a transaction have distinct texts, and a text is that of one of
  -- them exactly if it is that of a signer of one of the messages.
  pub get_signers_lem :
      (tx : ProtoTx A) (msgs : List Msg) (signers : List (List ℕ))
      → get_msgs proto tx ≡ ok msgs
      → get_signers proto tx ≡ ok signers
      → AllDistinct (texts signers)
        × ((s : List ℕ) → is_seen s (texts signers) ≡ is_seen s (texts (all_signers msgs)))
  unfolding get_signers Adds
  get_signers_lem tx msgs signers e e1 =
      let start : Tracks ([], []) = record { seen_texts = λ s. refl; distinct = tt } in
      let (tracks, added) = signers_loop-Adds msgs ([], []) start in
      let same : (signers_loop proto msgs ([], [])).0 ≡ signers = ok-injective (rw e at e1) in
      let all : (s : List ℕ)
          → is_seen s (texts (signers_loop proto msgs ([], [])).0)
            ≡ is_seen s (texts (all_signers msgs)) =
        (λ s. sym (tracks.seen_texts s) ∙ added s) in
      rw (← same) (tracks.distinct, all)
