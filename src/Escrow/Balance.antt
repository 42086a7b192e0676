-- ===== src/Escrow/Balance.antt =====
-- About the stakers that count in an election, and their balances.
use stegos.Prelude.{
  ℕ, ◌≡◌, ◌≤◌, refl, true, [], ◌∷◌, leb, ◌==◌, ==→≡, if◌then◌else◌, arith, All, Bool-cases, inl,
  inr, ap, ◌∙◌,
}
use stegos.Prelude.Int.{ℤ, pos, leb_ℤ, ◌+i64◌, ltb_ℤ}
use stegos.Prelude.Order.{nat_ord, eq?→≡}
use stegos.BtreeMap.{BtreeMap, lookup, lookup-insert, contains_key}
use stegos.BtreeMap.Sorted.{Sorted, Above, insert-Sorted, lookup-Above}
use stegos.Crypto.{PublicKey}
use stegos.Escrow.{
  Escrow, Stakes, hash_max, range, iter_validator_stakes, add_balances, validator_balance,
  add_staker, sum_stakers, get_stakers, at_least, get_stakers_majority,
}
use stegos.BtreeMap.Entry.{value_or_zero}

-- The stakes of one validator.
pub own : PublicKey → Stakes → Stakes
own v [] = []
own v ((key, value) ∷ m) = let rest = own v m in if v == key.0 then (key, value) ∷ rest else rest

-- The hashes of the keys are hashes of 32 bytes.
abbrev pub AreHashes : Stakes → Type 0
AreHashes = All (λ e. e.0.1 ≤ hash_max)

pub range-own : (v : PublicKey) (m : Stakes) → AreHashes m → range (v, 0) (v, hash_max) m ≡ own v m
unfolding range own
range-own v [] h = refl
range-own v (((w, hash), value) ∷ m) h = ground (arith, range-own v m h.1)

sum_stakers-add_balances :
    (epoch v : ℕ) (a x : ℤ) (stakes : BtreeMap PublicKey ℤ) (m : Stakes)
    → value_or_zero (lookup v stakes) ≡ a
    → value_or_zero (lookup v (sum_stakers epoch stakes m))
      ≡ (add_balances epoch (a, x) (own v m)).0
unfolding sum_stakers add_balances own
sum_stakers-add_balances epoch v a x stakes [] e = e
sum_stakers-add_balances epoch v a x stakes ((key, value) ∷ m) e =
    let entry =
      lookup-insert key.0 v (value_or_zero (lookup key.0 stakes) +i64 value.amount) stakes in
    let next = add_staker epoch key value stakes in
    elim (Bool-cases (v == key.0)) [
      | inl mine ↦ elim (Bool-cases (leb epoch value.active_until_epoch)) [
        | inl active ↦
            rw (mine, add_balances, active)
              (sum_stakers-add_balances epoch v (a +i64 value.amount) x next m
                (ground (arith, entry, ==→≡ v key.0 mine)))
        | inr expired ↦
            rw (mine, add_balances, expired)
              (sum_stakers-add_balances epoch v a (x +i64 value.amount) next m (ground arith))
      ]
      | inr other ↦ rw other (sum_stakers-add_balances epoch v a x next m (ground (arith, entry)))
    ]

-- With hashes of 32 bytes, the amount that `get_stakers` has for a validator, or 0, is the active balance of
-- `validator_balance`, also where the sum wraps around.
pub get_stakers-validator_balance :
    (v : PublicKey) (epoch : ℕ) (s : Escrow)
    → AreHashes s.map
    → value_or_zero (lookup v (get_stakers epoch s)) ≡ (validator_balance v epoch s).0
unfolding get_stakers validator_balance iter_validator_stakes lookup
get_stakers-validator_balance v epoch s h =
    rw (range-own v s.map h) (sum_stakers-add_balances epoch v (pos 0) (pos 0) [] s.map refl)

sum_stakers-Sorted :
    (epoch : ℕ) (stakes : BtreeMap PublicKey ℤ) (m : Stakes)
    → Sorted stakes
    → Sorted (sum_stakers epoch stakes m)
unfolding sum_stakers
sum_stakers-Sorted epoch stakes [] s = s
sum_stakers-Sorted epoch stakes ((key, value) ∷ m) s =
    sum_stakers-Sorted epoch (add_staker epoch key value stakes) m (
      ground (
        arith,
        insert-Sorted key.0 (value_or_zero (lookup key.0 stakes) +i64 value.amount) stakes s,
      ))

at_least-Above :
    (v : PublicKey) (min : ℤ) (m : BtreeMap PublicKey ℤ) → Above v m → Above v (at_least min m)
unfolding at_least
at_least-Above v min [] h = tt
at_least-Above v min ((key, amount) ∷ m) h = ground (arith, at_least-Above v min m h.1)

lookup-at_least :
    (v : PublicKey) (min : ℤ) (m : BtreeMap PublicKey ℤ)
    → Sorted m
    → ltb_ℤ (pos 0) min ≡ true
    → contains_key v (at_least min m) ≡ leb_ℤ min (value_or_zero (lookup v m))
unfolding at_least lookup
lookup-at_least v min [] s h = ground arith
lookup-at_least v min ((key, amount) ∷ m) s h = ground (
  arith,
  lookup-at_least v min m s.1 h,
  eq?→≡ v key,
  lookup-Above key (at_least min m) (at_least-Above key min m s.0),
)

-- With hashes of 32 bytes and a positive least amount, a validator is in `get_stakers_majority`
-- exactly if its active balance is not less than that amount.
pub get_stakers_majority-validator_balance :
    (v : PublicKey) (epoch : ℕ) (min : ℤ) (s : Escrow)
    → AreHashes s.map
    → ltb_ℤ (pos 0) min ≡ true
    → contains_key v (get_stakers_majority epoch min s) ≡ leb_ℤ min (validator_balance v epoch s).0
unfolding get_stakers_majority get_stakers
get_stakers_majority-validator_balance v epoch min s h some_min =
    lookup-at_least v min (get_stakers epoch s) (sum_stakers-Sorted epoch [] s.map tt) some_min
    ∙ ap (leb_ℤ min) (get_stakers-validator_balance v epoch s h)
