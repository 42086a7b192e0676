-- ===== src/Awards/Winners.antt =====
-- About the winner of the service award, and the record of failures (blockchain/src/awards.rs).
use stegos.Prelude.{
  ℕ, zero, suc, ◌+◌, ◌/◌, ◌%◌, ◌≤◌, ◌<◌, ◌≡◌, ◌↔◌, ◌≢◌, ==→≡, refl, Bool, true, false, not, Option,
  none, some, List, [], ◌∷◌, length, get_elem?, ltb, ◌==◌, arith, is_empty, if◌then◌else◌,
  Bool-cases, inl, inr, done, Returns, Returns-bind, Returns-mono, Returns-assert, Returns-if,
  Returns-unwrap,
}
use stegos.Prelude.Int.{ℤ, pos, ltb_ℤ, ◌+i64◌}
use stegos.Prelude.Order.{nat_ord, eq?_refl, eq?→≡}
use stegos.BtreeMap.{lookup, lookup-insert}
use stegos.BtreeMap.Sorted.{Sorted, lookup-Above}
use stegos.Crypto.{Hash}
use stegos.Election.{abs_or_zero, shrink_hash}
use stegos.Awards.{
  Account, ValidatorAwardState, failed, active, Activity, Awards, add_reward, record_state,
  record_all, finalize_epoch, bit, check_bits, chkbits, actives, check_winners,
}
use native.Mathlib.Nat.{mod-lt}

record_all-failed :
    (q : Account) (e o : ℕ) (epoch_activity : List (Account × ValidatorAwardState))
    (activity : Activity)
    → lookup q activity ≡ some (failed e o)
    → lookup q (record_all epoch_activity activity) ≡ some (failed e o)
unfolding record_all
record_all-failed q e o [] activity h = h
record_all-failed q e o ((k, state) ∷ rest) activity h =
    record_all-failed q e o rest _ (ground (arith, lookup-insert k q state activity, eq?→≡ q k))

-- Some entry of the activity is a failure of the validator.
pub has_failure : Account → List (Account × ValidatorAwardState) → Bool
has_failure q [] = false
has_failure q ((k, active) ∷ rest) = has_failure q rest
has_failure q ((k, failed epoch offset) ∷ rest) = if q == k then true else has_failure q rest

abbrev Failed : Option ValidatorAwardState → Type 0
Failed state = (e : ℕ) × (o : ℕ) × (state ≡ some (failed e o))

lookup-record_state :
    (k : Account) (e o : ℕ) (activity : Activity) (known : Option ValidatorAwardState)
    → lookup k activity ≡ known
    → Failed (lookup k (record_state known k (failed e o) activity))
lookup-record_state k e o activity (some (failed e' o')) h = (e', o', h)
lookup-record_state k e o activity (some active) h =
    (e, o, ground (arith, lookup-insert k k (failed e o) activity, eq?_refl k))
lookup-record_state k e o activity none h =
    (e, o, ground (arith, lookup-insert k k (failed e o) activity, eq?_refl k))

record_all-has_failure :
    (q : Account) (epoch_activity : List (Account × ValidatorAwardState)) (activity : Activity)
    → has_failure q epoch_activity ≡ true
    → Failed (lookup q (record_all epoch_activity activity))
unfolding record_all has_failure
record_all-has_failure q [] activity h = absurd (ground arith)
record_all-has_failure q ((k, active) ∷ rest) activity h = record_all-has_failure q rest _ h
record_all-has_failure q ((k, failed e o) ∷ rest) activity h = elim (Bool-cases (q == k)) [
  | inl mine ↦
      let (e', o', now) = lookup-record_state k e o activity (lookup k activity) refl in
      (e', o', record_all-failed q e' o' rest _ (rw (==→≡ q k mine) now))
  | inr other ↦ record_all-has_failure q rest _ (rw other at h)
]

-- The bits from `i` on, `count` of them, are zero.
abbrev pub AreZero : Hash → (count i : ℕ) → Type 0
AreZero h zero i = Unit
AreZero h (suc count) i = (bit h i ≡ 0) × AreZero h count (i + 1)

check_bits_lem :
    (h : Hash) (count i : ℕ)
    → i + count ≤ 256
    → Returns (check_bits h count i) (λ b. (b ≡ true) ↔ AreZero h count i)
unfolding check_bits
check_bits_lem h zero i fits = (λ _. tt, λ _. refl)
check_bits_lem h (suc count) i fits =
    let Q : Bool → Type 0 = λ b. (b ≡ true) ↔ AreZero h (suc count) i in
    Returns-assert Q (ltb (i / 8) 32) _ (ground arith) (elim (Bool-cases (bit h i == 0)) [
      | inl clear ↦ rw clear (
          Returns-mono (λ b. (b ≡ true) ↔ AreZero h count (i + 1)) Q (check_bits h count (i + 1))
            (check_bits_lem h count (i + 1) (omega arith))
            (λ b k. (λ e. (==→≡ (bit h i) 0 clear, k.0 e), λ z. k.1 z.1)))
      | inr set ↦ rw set (λ e. absurd (ground arith), λ z. absurd (ground (arith, z.0)))
    ])

-- For a difficulty of at most 256, `chkbits` returns, with no panic, and is true exactly if so many
-- bits of the hash, from the first one on, are zero.
pub chkbits_lem :
    (h : Hash) (nbits : ℕ)
    → nbits ≤ 256
    → Returns (chkbits h nbits) (λ b. (b ≡ true) ↔ AreZero h nbits 0)
unfolding chkbits
chkbits_lem h nbits fits = check_bits_lem h nbits 0 (omega arith)

actives-active :
    (i : ℕ) (k : Account) (activity : Activity)
    → Sorted activity
    → get_elem? (actives activity) i ≡ some k
    → lookup k activity ≡ some active
unfolding actives lookup
actives-active i k [] s e = absurd (ground arith)
actives-active zero k ((j, active) ∷ activity) s e = ground arith
actives-active (suc i) k ((j, active) ∷ activity) s e =
    ground (arith, actives-active i k activity s.1 e, eq?→≡ k j, lookup-Above j activity s.0)
actives-active i k ((j, failed epoch offset) ∷ activity) s e =
    ground (arith, actives-active i k activity s.1 e, eq?→≡ k j, lookup-Above j activity s.0)

get_elem?-some :
    {A : Type 0} (i : ℕ) (xs : List A) → i < length xs → (x : A) × (get_elem? xs i ≡ some x)
get_elem?-some i [] h = absurd (omega arith)
get_elem?-some zero (x ∷ xs) h = (x, refl)
get_elem?-some (suc i) (x ∷ xs) h = get_elem?-some i xs (omega arith)

-- What a draw comes to: an unlucky hash changes nothing; a lucky one clears the activity, and a
-- validator that was active gets the whole budget, unless there is none.
abbrev pub IsDraw : Hash → Awards → Awards × Option (Account × ℤ) → Type 0
IsDraw random s (t, none) =
    (t.budget ≡ s.budget)
    × ((AreZero random s.difficulty 0
          → (actives s.validators_activity ≡ []) × (t.validators_activity ≡ []))
        × (¬ AreZero random s.difficulty 0 → t ≡ s))
IsDraw random s (t, some (winner, amount)) =
    AreZero random s.difficulty 0
    × (lookup winner s.validators_activity ≡ some active)
    × (amount ≡ s.budget)
    × (t.budget ≡ pos 0)
    × (t.validators_activity ≡ [])

-- With a difficulty that `new` accepts, and the keys in order, `check_winners` returns, with no panic.
-- On a hash whose first bits are not all zero it changes nothing. On another one it clears the
-- activity, and a validator that was active gets the whole budget, which becomes zero; with no
-- active validator there is no winner, and the budget stays.
pub check_winners_lem :
    (random : Hash) (s : Awards)
    → s.difficulty < 256
    → Sorted s.validators_activity
    → Returns (check_winners random s) (IsDraw random s)
unfolding check_winners
check_winners_lem random s fits sorted =
    let array = actives s.validators_activity in
    let Q = IsDraw random s in
    Returns-bind _ Q (chkbits random s.difficulty) _ (chkbits_lem random s.difficulty (omega arith))
      (λ lucky exact.
        Returns-if Q (not lucky) (done (s, none)) _
          (λ unlucky. (refl, ((λ z. absurd (ground (arith, exact.1 z))), λ _. refl)))
          (λ won.
            Returns-if Q (is_empty array) (done _) _
              (λ empty.
                (refl, ((λ z. (ground arith, refl)), λ n. absurd (n (exact.0 (ground arith))))))
              (λ some_active.
                let i = abs_or_zero (shrink_hash random) % length array in
                let (k, found) =
                  get_elem?-some i array
                    (mod-lt (abs_or_zero (shrink_hash random)) (ground arith)) in
                Returns-unwrap Q (get_elem? array i) _ found (
                  exact.0 (ground arith),
                  actives-active i k s.validators_activity sorted found,
                  refl,
                  refl,
                  refl,
                ))))

-- With a positive reward, `finalize_epoch` returns, adds the reward to the budget, keeps every failure
-- that was recorded before, and leaves no validator active that has failed in the epoch.
pub finalize_epoch-failed :
    (reward : ℤ) (epoch_activity : List (Account × ValidatorAwardState)) (s : Awards)
    → ltb_ℤ (pos 0) reward ≡ true
    → Returns (finalize_epoch reward epoch_activity s) (λ t.
      (t.budget ≡ s.budget +i64 reward)
      × (t.difficulty ≡ s.difficulty)
      × ((q : Account) (epoch offset : ℕ)
          → lookup q s.validators_activity ≡ some (failed epoch offset)
          → lookup q t.validators_activity ≡ some (failed epoch offset))
      × ((q : Account)
          → has_failure q epoch_activity ≡ true
          → lookup q t.validators_activity ≢ some active))
unfolding finalize_epoch add_reward
finalize_epoch-failed reward epoch_activity s positive = rw positive (
  refl,
  refl,
  (λ q epoch offset h. record_all-failed q epoch offset epoch_activity s.validators_activity h),
  (λ q h now.
      let (e, o, failure) = record_all-has_failure q epoch_activity s.validators_activity h in
      absurd (ground (arith, failure, now))),
)
