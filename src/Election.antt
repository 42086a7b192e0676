-- ===== src/Election.antt =====
-- blockchain/src/election.rs: the choice of a leader, and of the validators, by stake.
pub mod Winner
pub mod Stakers
pub mod Slots
use stegos.Prelude.{
  zero, not, true, false, ◌||◌, ◌&&◌, ltb, is_empty, ℕ, suc, ◌+◌, ◌%◌, ◌/◌, ◌^◌, ◌==◌, Bool, Option,
  none, some, List, [], ◌∷◌, map, if◌then◌else◌, Outcome, done, panicked, ◌>>=◌, ◌>>◌, assert,
  unwrap, get_elem?,
}
use stegos.Prelude.Int.{ℤ, pos, negsuc, pos_part, neg_part, ltb_ℤ, leb_ℤ, eq_ℤ, i64, ◌+i64◌}
use stegos.Prelude.Order.{nat_ord}
use stegos.BtreeMap.{BtreeMap}
use stegos.BtreeMap.Entry.{add_entry}
use stegos.Crypto.{Hash, PublicKey}

pub record ElectionResult : Type 0 where
  -- the field `rand` of the VRF
  pub random : Hash
  pub view_change : ℕ
  pub validators : List (PublicKey × ℤ)
  pub facilitator : PublicKey

-- `checked_abs().unwrap_or(0)`: the absolute value of the least `i64` does not fit.
unfoldable pub abs_or_zero : ℤ → ℕ
abs_or_zero (pos n) = n
abs_or_zero (negsuc n) = if suc n == 2 ^ 63 then 0 else suc n

-- `stakers.clone().sum()`
unfoldable pub sum_stakes : List ℤ → ℤ
sum_stakes [] = pos 0
sum_stakes (stake ∷ stakers) = stake +i64 sum_stakes stakers

-- The loop; `num` counts the validators that were passed over.
unfoldable pub winner_loop : ℕ → ℤ → ℕ → List ℤ → Outcome (Option ℕ)
winner_loop need_stake accumulator num [] = panicked
winner_loop need_stake accumulator num (validator_stake ∷ stakers) = do
  assert (leb_ℤ (pos 0) validator_stake)
  let rest = winner_loop need_stake (accumulator +i64 validator_stake) (num + 1) stakers
  if ltb_ℤ (pos need_stake) (accumulator +i64 validator_stake) then done (some num) else rest

-- The remainder of a number that is not negative, by a divisor of either sign.
abbrev rem : ℕ → ℤ → ℕ
rem n d = n % (pos_part d + neg_part d)

unfoldable pub select_winner : List ℤ → ℤ → Outcome (Option ℕ)
unfolding abs_or_zero
select_winner stakers random_number =
    let sum = sum_stakes stakers in
    if eq_ℤ sum (pos 0)
    then done none
    else winner_loop (rem (abs_or_zero random_number) sum) (pos 0) 0 stakers

-- Bytes 1 to 8 of the hash, as an `i64`.
unfoldable pub shrink_hash : Hash → ℤ
shrink_hash hash = i64 (pos (hash / 2 ^ 184))

-- `mix` hashes a number into a hash; the hasher is a parameter.
module _ (mix : Hash → ℕ → Hash) where
  unfoldable pub generate_u64 : Hash → ℕ → ℤ
  generate_u64 seed index = shrink_hash (mix seed index)

  unfoldable pub select_leader : ElectionResult → ℕ → Outcome PublicKey
  select_leader e view_change = do
    winner ← select_winner (map (λ v. v.1) e.validators) (generate_u64 e.random view_change)
    leader_id ← unwrap winner
    leader ← unwrap (get_elem? e.validators leader_id)
    done leader.0

-- `sort` on pairs: by the key, then by the stake.
abbrev is_before : PublicKey × ℤ → PublicKey × ℤ → Bool
is_before a b = ltb a.0 b.0 || (a.0 == b.0 && leb_ℤ a.1 b.1)

unfoldable pub insert_staker : PublicKey × ℤ → List (PublicKey × ℤ) → List (PublicKey × ℤ)
insert_staker a [] = a ∷ []
insert_staker a (b ∷ stakers) =
    let rest = insert_staker a stakers in if is_before a b then a ∷ b ∷ stakers else b ∷ rest

unfoldable pub sort : List (PublicKey × ℤ) → List (PublicKey × ℤ)
sort [] = []
sort (a ∷ stakers) = insert_staker a (sort stakers)

module _ (mix : Hash → ℕ → Hash) where
  -- The loop over the slots; `i` is the first one, and becomes a `u32`.
  unfoldable pub draw_slots :
      List (PublicKey × ℤ)
      → Hash
      → (count i : ℕ) → BtreeMap PublicKey ℤ
      → Outcome (BtreeMap PublicKey ℤ)
  draw_slots stakers seed zero i validators = done validators
  draw_slots stakers seed (suc count) i validators = do
    winner ← select_winner (map (λ v. v.1) stakers) (generate_u64 mix seed (i % 2 ^ 32))
    index ← unwrap winner
    staker ← unwrap (get_elem? stakers index)
    draw_slots stakers seed count (i + 1) (add_entry staker.0 (pos 1) validators)

  -- `mix_facilitator` hashes the seed with the word "facilitator". The proof of the VRF, which is
  -- only passed on, is left out.
  module _ (mix_facilitator : Hash → Hash) where
    unfoldable pub select_validators_slots :
        List (PublicKey × ℤ) → Hash → ℤ → Outcome ElectionResult
    select_validators_slots stakers random slot_count = do
      assert (not (is_empty stakers))
      assert (ltb_ℤ (pos 0) slot_count)
      validators ← draw_slots (sort stakers) random (pos_part slot_count) 0 []
      winner ← select_winner (map (λ v. v.1) validators) (shrink_hash (mix_facilitator random))
      facilitator_id ← unwrap winner
      facilitator ← unwrap (get_elem? validators facilitator_id)
      done (record {
        random = random;
        view_change = 0;
        validators = validators;
        facilitator = facilitator.0;
      })
