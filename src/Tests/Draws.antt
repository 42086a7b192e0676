-- ===== src/Tests/Draws.antt =====
-- Draws, supermajorities and multi-signatures, at concrete inputs.
use stegos.Prelude.{
  ◌+◌, ℕ, ◌*◌, ◌%◌, ◌<◌, ◌≡◌, ◌↔◌, refl, true, some, List, [], ◌∷◌, arith, done, ok, Returns,
  get_elem?,
}
use stegos.Prelude.Int.{pos}
use stegos.Prelude.Order.{nat_ord}
use stegos.BtreeMap.{lookup}
use stegos.Crypto.{PublicKey}
use stegos.Election.{abs_or_zero, select_winner, select_leader}
use stegos.Election.{select_validators_slots}
use stegos.Election.Slots.{IsElected, select_validators_slots-IsElected}
use stegos.Election.Winner.{
  stakes, total, Holds, slots, slot_counts, select_winner_lem, select_leader_lem,
}
use stegos.Multisignature.{check_supermajority, create_multi_signature, check_multi_signature}
use stegos.Multisignature.Supermajority.{check_supermajority_lem}
use stegos.Multisignature.Bitmap.{signers, sum_signatures, create_multi_signature_lem}
use stegos.Multisignature.Roundtrip.{weight, check-create}
use stegos.Tests.Network.{toy, toy-IsAdditive, world, group, elected}

abbrev shares : List ℕ
shares = 3 ∷ 0 ∷ 2 ∷ []

select_winner_lem_example :
    Returns
      (select_winner (stakes shares) (pos 9))
      (λ w. (i : ℕ) × (w ≡ some i) × Holds (abs_or_zero (pos 9) % total shares) i shares)
select_winner_lem_example = select_winner_lem shares (pos 9) (omega arith) (omega arith)

select_leader_lem_example :
    Returns
      (select_leader world.mix elected 2)
      (λ p. (i : ℕ) × (k : ℕ) × (get_elem? group i ≡ some (p, k)) × (0 < k))
select_leader_lem_example =
    select_leader_lem world.mix elected 2 group refl (omega arith) (omega arith)

check_supermajority_lem_example :
    Returns (check_supermajority (pos 3) (pos 4)) (λ super. (super ≡ true) ↔ (4 * 2 < 3 * 3))
check_supermajority_lem_example =
    check_supermajority_lem 3 4 (omega arith) (omega arith) (omega arith)

abbrev signatures : List (PublicKey × ℕ)
signatures = (1, 7) ∷ (2, 14) ∷ (4, 28) ∷ []

create_multi_signature_lem_example :
    create_multi_signature toy (slots group) signatures
    ≡ done (sum_signatures toy 0 (slots group) signatures, signers (slots group) signatures)
create_multi_signature_lem_example =
    create_multi_signature_lem toy (slots group) signatures (omega arith)

valid_7 : (k sig : ℕ) → lookup k signatures ≡ some sig → toy.check_hash 7 sig k ≡ true
unfolding lookup
valid_7 k sig e = ground arith

three_of_four : total (slot_counts group) * 2 < weight group signatures * 3
unfolding weight lookup
three_of_four = omega arith

check-create_example : Returns (create_multi_signature toy (slots group) signatures) (λ m.
    check_multi_signature toy 7 m.0 m.1 (slots group) (pos (total (slot_counts group)))
    ≡ done (ok tt))
check-create_example =
    check-create toy toy-IsAdditive 7 group signatures (omega arith)
      (omega arith, (omega arith, (omega arith, (omega arith, tt))))
      (valid_7 1, (valid_7 2, (valid_7 3, (valid_7 4, tt)))) (omega arith) three_of_four

select_validators_slots-IsElected_example :
    Returns
      (select_validators_slots world.mix (λ h. h + 1) (slots group) 0 (pos 3))
      (IsElected group 3)
select_validators_slots-IsElected_example =
    select_validators_slots-IsElected world.mix (λ h. h + 1) group 0 3 (omega arith) (omega arith)
      (omega arith) (omega arith)
