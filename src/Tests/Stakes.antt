-- ===== src/Tests/Stakes.antt =====
-- An escrow with an active stake and an expired one.
use stegos.Prelude.{
  ◌+◌, ◌%◌, ◌^◌, ◌≡◌, refl, true, false, List, [], ◌∷◌, arith, panicked, Returns, ◌⊎◌,
}
use stegos.Prelude.Int.{pos, leb_ℤ, i64, ◌+i64◌, ◌+ℤ◌}
use stegos.Prelude.Order.{nat_ord, pair_ord}
use stegos.BtreeMap
use stegos.BtreeMap.{lookup, contains_key, Agree}
use stegos.Escrow.{
  Escrow, Output, stake_output, stake, unstake, range, iter_validator_stakes, add_balances,
  validator_balance, get_stakers, get_stakers_majority,
}
use stegos.BtreeMap.Entry.{value_or_zero}
use stegos.Escrow.Balance.{get_stakers-validator_balance, get_stakers_majority-validator_balance}
use stegos.Escrow.Stake.{stake_value, IsStaked, IsTakenBack, unstake-stake}

abbrev staking : Escrow
staking = record {
  map = ((1, 5), stake_value 9 10 (pos 100)) ∷ ((1, 6), stake_value 9 2 (pos 30)) ∷ [];
  undo = [];
  checkpoint_lsn = (3, 0);
}

abbrev inputs : List Output
inputs = stake_output 9 1 (pos 30) 6 ∷ []

abbrev outputs : List Output
outputs = Output.payment_output ∷ stake_output 9 1 (pos 10) 77 ∷ []

balance_5 : validator_balance 1 5 staking ≡ (pos 100, pos 30)
unfolding validator_balance iter_validator_stakes range add_balances i64 ◌+i64◌ ◌+ℤ◌
balance_5 = refl

get_stakers-validator_balance_example :
    value_or_zero (lookup 1 (get_stakers 5 staking)) ≡ (validator_balance 1 5 staking).0
get_stakers-validator_balance_example =
    get_stakers-validator_balance 1 5 staking (omega arith, (omega arith, tt))

get_stakers_majority-validator_balance_example :
    contains_key 1 (get_stakers_majority 5 (pos 50) staking)
    ≡ leb_ℤ (pos 50) (validator_balance 1 5 staking).0
get_stakers_majority-validator_balance_example =
    get_stakers_majority-validator_balance 1 5 (pos 50) staking (omega arith, (omega arith, tt))
      refl

unstake-stake_example :
    ((contains_key (1, 7) staking.map ≡ true)
      × (stake (4, 0) 1 9 7 5 2 (pos 20) staking ≡ panicked))
    ⊎ ((contains_key (1, 7) staking.map ≡ false)
        × Returns (stake (4, 0) 1 9 7 5 2 (pos 20) staking) (λ t.
          IsStaked (1, 7) (stake_value 9 ((5 + 2) % 2 ^ 64) (pos 20)) staking t
          × Returns (unstake (4, 1) 1 7 t) (IsTakenBack (4, 1) 1 7 staking)))
unstake-stake_example = unstake-stake (4, 0) (4, 1) (4, 1) 1 9 7 5 2 (pos 20) staking refl refl refl
