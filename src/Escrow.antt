-- ===== src/Escrow.antt =====
-- blockchain/src/escrow.rs: the stakes of the validators, in a map with versions. The struct
-- `Escrow` has this map as its only field. A sequence number is a pair (`LSN`), ordered field by
-- field, and so is a key. The balances that `stake` and `unstake` log are left out.
pub mod Balance
pub mod Locked
pub mod Stake
use stegos.Prelude.{
  ℕ, ◌+◌, ◌-◌, ◌%◌, ◌^◌, Bool, true, false, not, ◌&&◌, Option, none, some, List, [], ◌∷◌, ltb, leb,
  ◌==◌, if◌then◌else◌, is_some, Outcome, done, ◌>>=◌, ◌>>◌, assert, unwrap, Result, ok, err,
}
use stegos.Prelude.Int.{ℤ, pos, ltb_ℤ, leb_ℤ, ◌+i64◌, ◌-i64◌}
use stegos.Prelude.Order.{nat_ord, pair_ord, cmp_pair, gt?}
use stegos.BtreeMap
use stegos.BtreeMap.{BtreeMap, lookup}
use stegos.BtreeMap.Entry.{value_or_zero, add_entry}
use stegos.Mvcc
use stegos.Mvcc.{MultiVersionedMap}
use stegos.Crypto.{Hash, PublicKey}

abbrev pub Lsn : Type 0
Lsn = ℕ × ℕ

-- The key of an account, a point of another curve than a validator's.
abbrev pub AccountKey : Type 0
AccountKey = ℕ

abbrev pub EscrowKey : Type 0
EscrowKey = PublicKey × Hash

pub record EscrowValue : Type 0 where
  pub account_pkey : AccountKey
  pub active_until_epoch : ℕ
  pub amount : ℤ

abbrev pub Escrow : Type 0
Escrow = MultiVersionedMap EscrowKey EscrowValue Lsn

abbrev pub Stakes : Type 0
Stakes = BtreeMap EscrowKey EscrowValue

-- The outputs of transactions, as far as the escrow reads them; `hash` is the digest of the output.
pub data Output : Type 0 where
  payment_output public_payment_output : Output
  stake_output :
      (recipient : AccountKey) (validator : PublicKey) (amount : ℤ) (hash : Hash) → Output

pub data EscrowError : Type 0 where
  stake_output_with_different_account_key :
      (account_pkey recipient : AccountKey) (utxo_hash : Hash) → EscrowError
  stake_is_locked : (validator_pkey : PublicKey) (expected_balance active_balance : ℤ) → EscrowError

unfoldable pub stake :
    Lsn → PublicKey → AccountKey → Hash → (epoch stakes_epoch : ℕ) → ℤ → Escrow → Outcome Escrow
stake lsn validator_pkey account_pkey output_hash epoch stakes_epoch amount s = do
  let active_until_epoch = (epoch + stakes_epoch) % 2 ^ 64
  (t, old) ←
      Mvcc.insert lsn (validator_pkey, output_hash)
        (record {
          account_pkey = account_pkey;
          active_until_epoch = active_until_epoch;
          amount = amount;
        })
        s
  assert (not (is_some old))
  done t

unfoldable pub unstake : Lsn → PublicKey → Hash → Escrow → Outcome Escrow
unstake lsn validator_pkey output_hash s = do
  (t, old) ← Mvcc.remove lsn (validator_pkey, output_hash) s
  val ← unwrap old
  done t

-- The greatest hash, of `Hash::bounds`; the least is 0.
abbrev pub hash_max : Hash
hash_max = 2 ^ 256 - 1

-- `range(key_min..=key_max)`
unfoldable pub range : EscrowKey → EscrowKey → Stakes → Stakes
range key_min key_max [] = []
range key_min key_max ((key, value) ∷ m) =
    let rest = range key_min key_max m in
    if not (gt? key_min key) && not (gt? key key_max) then (key, value) ∷ rest else rest

unfoldable pub iter_validator_stakes : PublicKey → Escrow → Stakes
iter_validator_stakes validator_pkey s = range (validator_pkey, 0) (validator_pkey, hash_max) s.map

-- The closure that `validator_balance` folds: the active balance and the expired one.
abbrev pub add_balance : ℕ → EscrowValue → ℤ × ℤ → ℤ × ℤ
add_balance epoch value (active_balance, expired_balance) =
    if leb epoch value.active_until_epoch
    then (active_balance +i64 value.amount, expired_balance)
    else (active_balance, expired_balance +i64 value.amount)

unfoldable pub add_balances : ℕ → ℤ × ℤ → Stakes → ℤ × ℤ
add_balances epoch acc [] = acc
add_balances epoch acc ((key, value) ∷ m) = add_balances epoch (add_balance epoch value acc) m

unfoldable pub validator_balance : PublicKey → ℕ → Escrow → ℤ × ℤ
validator_balance validator_pkey epoch s =
    add_balances epoch (pos 0, pos 0) (iter_validator_stakes validator_pkey s)

abbrev pub first_account : Stakes → Option AccountKey
first_account [] = none
first_account ((key, value) ∷ m) = some value.account_pkey

unfoldable pub account_by_network_key : PublicKey → Escrow → Option AccountKey
account_by_network_key validator_pkey s = first_account (iter_validator_stakes validator_pkey s)

-- The loop of `get_stakers`, which skips expired stakes.
abbrev pub add_staker : ℕ → EscrowKey → EscrowValue → BtreeMap PublicKey ℤ → BtreeMap PublicKey ℤ
add_staker epoch key value stakes =
    if ltb value.active_until_epoch epoch then stakes else add_entry key.0 value.amount stakes

unfoldable pub sum_stakers : ℕ → BtreeMap PublicKey ℤ → Stakes → BtreeMap PublicKey ℤ
sum_stakers epoch stakes [] = stakes
sum_stakers epoch stakes ((key, value) ∷ m) =
    sum_stakers epoch (add_staker epoch key value stakes) m

unfoldable pub get_stakers : ℕ → Escrow → BtreeMap PublicKey ℤ
get_stakers epoch s = sum_stakers epoch [] s.map

-- The filter of `get_stakers_majority`.
unfoldable pub at_least : ℤ → BtreeMap PublicKey ℤ → BtreeMap PublicKey ℤ
at_least min_stake_amount [] = []
at_least min_stake_amount ((key, amount) ∷ m) =
    let rest = at_least min_stake_amount m in
    if leb_ℤ min_stake_amount amount then (key, amount) ∷ rest else rest

unfoldable pub get_stakers_majority : ℕ → ℤ → Escrow → List (PublicKey × ℤ)
get_stakers_majority epoch min_stake_amount s = at_least min_stake_amount (get_stakers epoch s)

-- The first loop of `validate_stakes`: stakes that are spent.
unfoldable pub subtract_inputs : BtreeMap PublicKey ℤ → List Output → BtreeMap PublicKey ℤ
subtract_inputs balance [] = balance
subtract_inputs balance (stake_output recipient validator amount hash ∷ inputs) =
    subtract_inputs
      (BtreeMap.insert validator (value_or_zero (lookup validator balance) -i64 amount) balance)
      inputs
subtract_inputs balance (_ ∷ inputs) = subtract_inputs balance inputs

-- The second loop: stakes that are made.
unfoldable pub add_outputs :
    Escrow → BtreeMap PublicKey ℤ → List Output → Result EscrowError (BtreeMap PublicKey ℤ)
add_outputs s balance [] = ok balance
add_outputs s balance (stake_output recipient validator amount hash ∷ outputs) =
    let rest = add_outputs s (add_entry validator amount balance) outputs in
    elim (account_by_network_key validator s) [
      | none ↦ rest
      | some account_pkey ↦
          if not (account_pkey == recipient)
          then err (stake_output_with_different_account_key account_pkey recipient hash)
          else rest
    ]
add_outputs s balance (_ ∷ outputs) = add_outputs s balance outputs

-- The third loop: no active stake is spent. The source goes through a `HashMap`; the order decides
-- only which error is returned.
unfoldable pub check_balances : Escrow → ℕ → BtreeMap PublicKey ℤ → Result EscrowError (Unit {0})
check_balances s epoch [] = ok tt
check_balances s epoch ((validator_pkey, balance) ∷ m) =
    let (active_balance, expired_balance) = validator_balance validator_pkey epoch s in
    let expected_balance = active_balance +i64 expired_balance +i64 balance in
    let rest = check_balances s epoch m in
    if ltb_ℤ expected_balance active_balance
    then err (stake_is_locked validator_pkey expected_balance active_balance)
    else rest

unfoldable pub validate_stakes :
    List Output → List Output → ℕ → Escrow → Result EscrowError (Unit {0})
validate_stakes inputs outputs epoch s = elim (add_outputs s (subtract_inputs [] inputs) outputs) [
  | err e ↦ err e
  | ok staking_balance ↦ check_balances s epoch staking_balance
]
