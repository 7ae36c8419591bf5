-- ===== src/Bank/Sends/Built.antt =====
-- The messages that `MultiSend` of modules/bank/bank.go builds are balanced.
use plugchain_sdk_go.Prelude.{ℕ, suc, ◌≡◌, refl, ap, List, [], ◌∷◌, length, ok}
use plugchain_sdk_go.Denom.{Denom}
use plugchain_sdk_go.CoinSet.{Coin}
use plugchain_sdk_go.Client.{Io, pure, ◌>>=◌, ClientConfig, Services}
use plugchain_sdk_go.Client.Returns.{Returns, continue-Returns, anything}
use plugchain_sdk_go.Client.Tokens.{to_min_coin}
use plugchain_sdk_go.Bank.{Input, Output, BankMsg, send, multi_send}
use plugchain_sdk_go.Bank.Balance.{inputs_total, outputs_total}
use plugchain_sdk_go.Bank.Sends.{Receipt, new_input, new_output, parties, multi_send_msg}

-- Each input has the coins of the output beside it.
abbrev SameCoins : List Input → List Output → Type 0
SameCoins [] [] = Unit
SameCoins (i ∷ is) (o ∷ os) = (i.coins ≡ o.coins) × SameCoins is os
SameCoins _ _ = ⊥

SameCoins-total :
    (d : Denom) (is : List Input) (os : List Output)
    → SameCoins is os
    → inputs_total d is ≡ outputs_total d os
SameCoins-total d [] [] h = refl
SameCoins-total d [] (o ∷ os) h = absurd h
SameCoins-total d (i ∷ is) [] h = absurd h
SameCoins-total d (i ∷ is) (o ∷ os) (e, h) = rw (e, SameCoins-total d is os h)

-- What is promised of the two sides of a message.
abbrev Sides : ℕ → List Input × List Output → Type 0
Sides n sides = SameCoins sides.0 sides.1 × (length sides.0 ≡ n)

-- What a message takes from its inputs and gives to its outputs.
abbrev pub IsBalanced : ℕ → BankMsg → Type 0
IsBalanced n (send msg) = Unit
IsBalanced n (multi_send msg) =
    ((d : Denom) → inputs_total d msg.inputs ≡ outputs_total d msg.outputs)
    × (length msg.inputs ≡ n)

module _ {W : Type 0} (node : Services W BankMsg) (cfg : ClientConfig) where
  -- The rest of a round of the loop, behind the address and behind the amount.
  abbrev join :
      List ℕ → List Coin → List ℕ → List Input × List Output → Io W (List Input × List Output)
  join sender amt addr rest =
      pure (ok (new_input node cfg sender amt ∷ rest.0, new_output node cfg addr amt ∷ rest.1))

  abbrev behind_address :
      List ℕ → List Receipt → List Coin → List ℕ → Io W (List Input × List Output)
  behind_address sender receipts amt addr =
      parties node cfg sender receipts >>= join sender amt addr

  abbrev behind_amount :
      List ℕ → Receipt → List Receipt → List Coin → Io W (List Input × List Output)
  behind_amount sender receipt receipts amt =
      pure (node.acc_address_from_bech32 receipt.address) >>= behind_address sender receipts amt

  parties-Sides :
      (sender : List ℕ) (receipts : List Receipt) (w : W)
      → Returns (Sides (length receipts)) (parties node cfg sender receipts w)
  unfolding parties new_input new_output
  parties-Sides sender [] w = (tt, refl)
  parties-Sides sender (receipt ∷ receipts) w =
      let n = length receipts in
      let looped : (w2 : W) → Returns (Sides n) (parties node cfg sender receipts w2) =
        (λ w2. parties-Sides sender receipts w2) in
      let joined : (amt : List Coin) (addr : List ℕ) (w2 : W)
          → Returns (Sides (suc n)) (behind_address sender receipts amt addr w2) =
        (λ amt addr w2.
          continue-Returns (Sides n) (Sides (suc n)) (join sender amt addr)
            (parties node cfg sender receipts w2) (looped w2)
            (λ rest w3 same. ((refl, same.0), ap suc same.1))) in
      let parsed : (amt : List Coin) (w1 : W)
          → Returns (Sides (suc n)) (behind_amount sender receipt receipts amt w1) =
        (λ amt w1.
          continue-Returns (λ addr. Unit {0}) (Sides (suc n)) (behind_address sender receipts amt)
            (node.acc_address_from_bech32 receipt.address, w1) (anything _)
            (λ addr w2 _. joined amt addr w2)) in
      continue-Returns (λ amt. Unit {0}) (Sides (suc n)) (behind_amount sender receipt receipts)
        (to_min_coin node cfg receipt.amount w) (anything _) (λ amt w1 _. parsed amt w1)

  -- If MultiSend builds a message for some receipts, it has an input for each of them, and takes
  -- from its inputs, of every denomination, what it gives to its outputs.
  pub multi_send_msg-IsBalanced :
      (sender : List ℕ) (receipts : List Receipt) (w : W)
      → Returns (IsBalanced (length receipts)) (multi_send_msg node cfg sender receipts w)
  unfolding multi_send_msg
  multi_send_msg-IsBalanced sender receipts w =
      continue-Returns (Sides (length receipts)) _ _ _ (parties-Sides sender receipts w)
        (λ sides w1 same. ((λ d. SameCoins-total d sides.0 sides.1 same.0), same.1))
