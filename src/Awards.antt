-- ===== src/Awards.antt =====
-- blockchain/src/awards.rs: the budget of the service award, and the draw of its winner. Logs and
-- metrics are left out.
pub mod Winners
use stegos.Prelude.{
  ℕ, zero, suc, ◌+◌, ◌-◌, ◌*◌, ◌/◌, ◌%◌, ◌^◌, ◌==◌, Bool, true, false, not, Option, none, some,
  List, [], ◌∷◌, length, get_elem?, ltb, is_empty, if◌then◌else◌, Outcome, done, ◌>>=◌, ◌>>◌,
  assert, unwrap,
}
use stegos.Prelude.Int.{ℤ, pos, ltb_ℤ, ◌+i64◌}
use stegos.Prelude.Order.{nat_ord}
use stegos.BtreeMap
use stegos.BtreeMap.{BtreeMap, lookup}
use stegos.Crypto.{Hash}
use stegos.Election.{abs_or_zero, shrink_hash}

-- The key of an account.
abbrev pub Account : Type 0
Account = ℕ

pub data ValidatorAwardState : Type 0 where
  failed : (epoch offset : ℕ) → ValidatorAwardState
  active : ValidatorAwardState

abbrev pub Activity : Type 0
Activity = BtreeMap Account ValidatorAwardState

pub record Awards : Type 0 where
  pub budget : ℤ
  pub difficulty : ℕ
  pub validators_activity : Activity

-- The difficulty is less than the number of bits of a hash.
unfoldable pub new : ℕ → Outcome Awards
new difficulty = do
  assert (ltb difficulty 256)
  done (record { budget = pos 0; difficulty = difficulty; validators_activity = [] })

unfoldable pub add_reward : ℤ → Awards → Outcome Awards
add_reward piece s = do
  assert (ltb_ℤ (pos 0) piece)
  done (record s { budget = s.budget +i64 piece })

-- A validator that has failed stays so.
abbrev pub record_state :
    Option ValidatorAwardState → Account → ValidatorAwardState → Activity → Activity
record_state (some (failed epoch offset)) validator state activity = activity
record_state _ validator state activity = BtreeMap.insert validator state activity

-- The loop of `finalize_epoch`.
unfoldable pub record_all : List (Account × ValidatorAwardState) → Activity → Activity
record_all [] activity = activity
record_all ((validator, state) ∷ epoch_activity) activity =
    record_all epoch_activity (record_state (lookup validator activity) validator state activity)

unfoldable pub finalize_epoch : ℤ → List (Account × ValidatorAwardState) → Awards → Outcome Awards
finalize_epoch reward epoch_activity s = do
  t ← add_reward reward s
  done (record t { validators_activity = record_all epoch_activity t.validators_activity })

-- Byte `i` of a hash, and its bit `i` in the order of the loop.
abbrev pub byte : Hash → ℕ → ℕ
byte h i = h / 2 ^ (8 * (31 - i)) % 256

unfoldable pub bit : Hash → ℕ → ℕ
bit h i = byte h (i / 8) / 2 ^ (i % 8) % 2

-- The loop of `chkbits` from `i` on; a byte out of range panics.
unfoldable pub check_bits : Hash → (count i : ℕ) → Outcome Bool
check_bits h zero i = done true
check_bits h (suc count) i = do
  assert (ltb (i / 8) 32)
  let rest = check_bits h count (i + 1)
  if not (bit h i == 0) then done false else rest

unfoldable pub chkbits : Hash → ℕ → Outcome Bool
chkbits h nbits = check_bits h nbits 0

-- The validators that may win.
abbrev pub add_active : Account → ValidatorAwardState → List Account → List Account
add_active k active keys = k ∷ keys
add_active k (failed epoch offset) keys = keys

unfoldable pub actives : Activity → List Account
actives [] = []
actives ((k, state) ∷ activity) = add_active k state (actives activity)

unfoldable pub check_winners : Hash → Awards → Outcome (Awards × Option (Account × ℤ))
unfolding abs_or_zero
check_winners random s = do
  lucky ← chkbits random s.difficulty
  let array = actives s.validators_activity
  let t = record s { validators_activity = [] }
  if not lucky
      then done (s, none)
      else (if is_empty array then done (t, none) else (do
        winner_pk ← unwrap (get_elem? array (abs_or_zero (shrink_hash random) % length array))
        done (record t { budget = pos 0 }, some (winner_pk, s.budget))))
