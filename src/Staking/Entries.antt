-- ===== src/Staking/Entries.antt =====
-- modules/staking/delegation.go: the entries of unbonding delegations and of redelegations.
use plugchain_sdk_go.Prelude.{
  ℕ, suc, ◌≡◌, refl, arith, Bool, true, not, ltb, if◌then◌else◌, List, [], ◌∷◌, ◌++◌, append-nil,
  length, length-append, take, take-length-append, drop, Result, ok, panic, ◌>>=◌,
  slice_out_of_range,
}
use plugchain_sdk_go.Prelude.Integer.{ℤ, pos, negsuc, ltb_ℤ}
use plugchain_sdk_go.Dec.{Decimal}

-- A time is the integer of its nanoseconds.
pub record UnbondingDelegationEntry : Type 0 where
  pub creation_height : ℤ
  pub completion_time : ℤ
  pub initial_balance : ℤ
  pub balance : ℤ

pub record RedelegationEntry : Type 0 where
  pub creation_height : ℤ
  pub completion_time : ℤ
  pub initial_balance : ℤ
  pub shares_dst : Decimal

pub record UnbondingDelegation : Type 0 where
  pub delegator_address : List ℕ
  pub validator_address : List ℕ
  pub entries : List UnbondingDelegationEntry

pub record Redelegation : Type 0 where
  pub delegator_address : List ℕ
  pub validator_src_address : List ℕ
  pub validator_dst_address : List ℕ
  pub entries : List RedelegationEntry

unfoldable pub new_unbonding_delegation_entry : ℤ → ℤ → ℤ → UnbondingDelegationEntry
new_unbonding_delegation_entry height time balance = record {
  creation_height = height;
  completion_time = time;
  initial_balance = balance;
  balance = balance;
}

unfoldable pub new_redelegation_entry : ℤ → ℤ → ℤ → Decimal → RedelegationEntry
new_redelegation_entry height time balance shares = record {
  creation_height = height;
  completion_time = time;
  initial_balance = balance;
  shares_dst = shares;
}

-- `IsMature` of both: `!e.CompletionTime.After(currentTime)`
unfoldable pub is_mature : ℤ → ℤ → Bool
is_mature completion_time current_time = not (ltb_ℤ current_time completion_time)

-- The texts of the addresses are given.
unfoldable pub new_unbonding_delegation : List ℕ → List ℕ → ℤ → ℤ → ℤ → UnbondingDelegation
unfolding new_unbonding_delegation_entry
new_unbonding_delegation delegator validator height time balance = record {
  delegator_address = delegator;
  validator_address = validator;
  entries = new_unbonding_delegation_entry height time balance ∷ [];
}

unfoldable pub new_redelegation : List ℕ → List ℕ → List ℕ → ℤ → ℤ → ℤ → Decimal → Redelegation
unfolding new_redelegation_entry
new_redelegation delegator source destination height time balance shares = record {
  delegator_address = delegator;
  validator_src_address = source;
  validator_dst_address = destination;
  entries = new_redelegation_entry height time balance shares ∷ [];
}

-- `append(entries[:i], entries[i+1:]...)`
unfoldable pub without_entry : {E : Type 0} → List E → ℤ → Result (List E)
without_entry entries (negsuc i) = panic slice_out_of_range
without_entry entries (pos i) =
    if ltb i (length entries)
    then ok (take i entries ++ drop (suc i) entries)
    else panic slice_out_of_range

unfoldable pub add_unbonding_entry : UnbondingDelegation → ℤ → ℤ → ℤ → UnbondingDelegation
unfolding new_unbonding_delegation_entry
add_unbonding_entry ubd height time balance = record {
  delegator_address = ubd.delegator_address;
  validator_address = ubd.validator_address;
  entries = ubd.entries ++ new_unbonding_delegation_entry height time balance ∷ [];
}

unfoldable pub remove_unbonding_entry : UnbondingDelegation → ℤ → Result UnbondingDelegation
unfolding without_entry
remove_unbonding_entry ubd i = without_entry ubd.entries i >>= λ entries. ok (record {
  delegator_address = ubd.delegator_address;
  validator_address = ubd.validator_address;
  entries = entries;
})

unfoldable pub add_redelegation_entry : Redelegation → ℤ → ℤ → ℤ → Decimal → Redelegation
unfolding new_redelegation_entry
add_redelegation_entry red height time balance shares = record {
  delegator_address = red.delegator_address;
  validator_src_address = red.validator_src_address;
  validator_dst_address = red.validator_dst_address;
  entries = red.entries ++ new_redelegation_entry height time balance shares ∷ [];
}

unfoldable pub remove_redelegation_entry : Redelegation → ℤ → Result Redelegation
unfolding without_entry
remove_redelegation_entry red i = without_entry red.entries i >>= λ entries. ok (record {
  delegator_address = red.delegator_address;
  validator_src_address = red.validator_src_address;
  validator_dst_address = red.validator_dst_address;
  entries = entries;
})

-- The entry between two parts of the list is removed, and the parts stay.
without_entry-append :
    {E : Type 0} (before : List E) (e : E) (behind : List E)
    → without_entry (before ++ e ∷ behind) (pos (length before)) ≡ ok (before ++ behind)
unfolding without_entry
without_entry-append before e behind =
    let inside : ltb (length before) (length (before ++ e ∷ behind)) ≡ true =
      rw (length-append before (e ∷ behind)) (ground arith) in
    rw (inside, take-length-append before (e ∷ behind), behind_entry before e behind) refl
  where
    behind_entry :
        {E : Type 0} (before : List E) (e : E) (behind : List E)
        → drop (suc (length before)) (before ++ e ∷ behind) ≡ behind
    behind_entry [] e behind = refl
    behind_entry (x ∷ before) e behind = behind_entry before e behind

-- An entry that was added last is removed again.
remove_unbonding_entry-add_unbonding_entry :
    (ubd : UnbondingDelegation) (height time balance : ℤ)
    → remove_unbonding_entry
        (add_unbonding_entry ubd height time balance)
        (pos (length ubd.entries))
      ≡ ok ubd
unfolding remove_unbonding_entry add_unbonding_entry
remove_unbonding_entry-add_unbonding_entry ubd height time balance =
    rw
      (
        without_entry-append ubd.entries (new_unbonding_delegation_entry height time balance) [],
        append-nil ubd.entries,
      )
      refl

remove_redelegation_entry-add_redelegation_entry :
    (red : Redelegation) (height time balance : ℤ) (shares : Decimal)
    → remove_redelegation_entry
        (add_redelegation_entry red height time balance shares)
        (pos (length red.entries))
      ≡ ok red
unfolding remove_redelegation_entry add_redelegation_entry
remove_redelegation_entry-add_redelegation_entry red height time balance shares =
    rw
      (
        without_entry-append red.entries (new_redelegation_entry height time balance shares) [],
        append-nil red.entries,
      )
      refl
