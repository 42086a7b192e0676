-- ===== src/Escrow/Locked.antt =====
-- About the transactions that `validate_stakes` accepts.
use stegos.Prelude.{◌≡◌, Bool, false, ◌||◌, some, List, [], ◌∷◌, ◌==◌, if◌then◌else◌, All}
use stegos.Prelude.Int.{ℤ, ◌+i64◌, ◌-i64◌}
use stegos.Prelude.Order.{nat_ord, pair_ord}
use stegos.BtreeMap
use stegos.BtreeMap.{BtreeMap, lookup, lookup-remove, contains_key, Agree}
use stegos.Crypto.{PublicKey}
use stegos.Escrow.{AccountKey, Escrow, Output, stake_output, account_by_network_key}
use stegos.BtreeMap.Entry.{value_or_zero}

-- The change of a validator's stake by the spent outputs, and by the new ones.
pub spent : PublicKey → ℤ → List Output → ℤ
spent v acc [] = acc
spent v acc (stake_output recipient validator amount hash ∷ inputs) =
    spent v (if v == validator then acc -i64 amount else acc) inputs
spent v acc (_ ∷ inputs) = spent v acc inputs

pub staked : PublicKey → ℤ → List Output → ℤ
staked v acc [] = acc
staked v acc (stake_output recipient validator amount hash ∷ outputs) =
    staked v (if v == validator then acc +i64 amount else acc) outputs
staked v acc (_ ∷ outputs) = staked v acc outputs

-- Some of the outputs is a stake of the validator.
pub has_stake : PublicKey → List Output → Bool
has_stake v [] = false
has_stake v (stake_output recipient validator amount hash ∷ outputs) =
    v == validator || has_stake v outputs
has_stake v (_ ∷ outputs) = has_stake v outputs

-- Every new stake names the account that has staked for its validator, if there is one.
abbrev pub IsOwn : Escrow → Output → Type 0
IsOwn s (stake_output recipient validator amount hash) =
    (account_pkey : AccountKey)
    → account_by_network_key validator s ≡ some account_pkey
    → account_pkey ≡ recipient
IsOwn s _ = Unit

-- What the second loop accepts.
abbrev Accepts :
    PublicKey → Escrow → BtreeMap PublicKey ℤ → List Output → BtreeMap PublicKey ℤ → Type 0
Accepts v s balance outputs total =
    (value_or_zero (lookup v total) ≡ staked v (value_or_zero (lookup v balance)) outputs)
    × (contains_key v total ≡ contains_key v balance || has_stake v outputs)
    × All (IsOwn s) outputs
