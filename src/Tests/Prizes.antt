-- ===== src/Tests/Prizes.antt =====
-- The service award, at concrete hashes.
use stegos.Prelude.{
  ℕ, ◌*◌, ◌^◌, ◌≡◌, ◌≢◌, ◌↔◌, true, some, List, [], ◌∷◌, arith, Returns, done, refl,
}
use stegos.Prelude.Int.{pos, ◌+i64◌}
use stegos.Prelude.Order.{nat_ord}
use stegos.BtreeMap.{lookup}
use stegos.Awards.{
  Account, ValidatorAwardState, failed, active, Awards, finalize_epoch, bit, check_bits, chkbits,
  check_winners,
}
use stegos.Awards.Winners.{
  AreZero, IsDraw, has_failure, chkbits_lem, check_winners_lem, finalize_epoch-failed,
}

abbrev awards : Awards
awards = record {
  budget = pos 500;
  difficulty = 10;
  validators_activity = (3, active) ∷ (4, failed 1 2) ∷ (6, active) ∷ [];
}

-- Bytes 0 and 1 of the hash are zero.
abbrev lucky_hash : ℕ
lucky_hash = 5 * 2 ^ 200

chkbits_lem_example : Returns (chkbits lucky_hash 10) (λ b. (b ≡ true) ↔ AreZero lucky_hash 10 0)
chkbits_lem_example = chkbits_lem lucky_hash 10 (omega arith)

check_winners_lem_example : Returns (check_winners lucky_hash awards) (IsDraw lucky_hash awards)
check_winners_lem_example =
    check_winners_lem lucky_hash awards (omega arith) ((refl, (refl, tt)), ((refl, tt), (tt, tt)))

abbrev epoch_activity : List (Account × ValidatorAwardState)
epoch_activity = (4, active) ∷ (6, failed 2 7) ∷ (9, active) ∷ []

finalize_epoch-failed_example : Returns (finalize_epoch (pos 20) epoch_activity awards) (λ t.
    (t.budget ≡ awards.budget +i64 pos 20)
    × (t.difficulty ≡ awards.difficulty)
    × ((q : Account) (epoch offset : ℕ)
        → lookup q awards.validators_activity ≡ some (failed epoch offset)
        → lookup q t.validators_activity ≡ some (failed epoch offset))
    × ((q : Account)
        → has_failure q epoch_activity ≡ true
        → lookup q t.validators_activity ≢ some active))
finalize_epoch-failed_example = finalize_epoch-failed (pos 20) epoch_activity awards refl

lucky : chkbits lucky_hash 10 ≡ done true
unfolding chkbits check_bits bit
lucky = refl
