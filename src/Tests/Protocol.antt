-- ===== src/Tests/Protocol.antt =====
-- The theorems on the protocol, at the round of Tests/Round.antt.
use stegos.Prelude.{
  ◌+◌, All, ◌*◌, ◌≤◌, ◌<◌, ◌≡◌, ◌↔◌, refl, true, arith, done, panicked, Returns, some, [], ◌∷◌,
}
use stegos.Prelude.Int.{pos, i64, ◌+i64◌, ◌+ℤ◌}
use stegos.Prelude.Order.{nat_ord}
use stegos.BtreeMap.{lookup, insert, contains_key}
use stegos.Crypto.{Hash, PublicKey, Signature}
use stegos.Consensus.State.{ConsensusMessageBody}
use stegos.Consensus.Feed.{
  sum_votes, has_supermajority, feed_message, transition, precommit, process_body, advance,
  process_message, check_transition, check_block_hash, receive,
}
use stegos.Consensus.Rounds.{new, reset, next_round, propose, vote, commit}
use stegos.Consensus.Agreement.{Reach, commit-IsQuorum, agreement}
use stegos.Consensus.Committed.{IsAccepted, commit-check}
use stegos.Consensus.Total.{feed_message-Inv}
use stegos.Consensus.Driver.{new-Inv, next_round-Inv, reset_keeps, vote-Inv, propose-Inv}
use stegos.Consensus.Votes.{tally, common}
use stegos.Consensus.Invariant.{Inv, IsQuorum, Signed, depth, has_supermajority_lem}
use stegos.Consensus.Replayed.{own_prevote_panics}
use stegos.Multisignature.{check_supermajority}
use stegos.Tests.Network.{
  toy, toy-IsAdditive, world, toy-IsSound, group, group-IsGroup, elected, from, block_7,
}
use stegos.Election.Winner.{slots, slot_counts, total}
use stegos.Election.{
  select_validators_slots, sort, insert_staker, draw_slots, select_winner, winner_loop, sum_stakes,
  generate_u64, shrink_hash, abs_or_zero,
}
use stegos.Election.Stakers.{is_staker}
use stegos.Consensus.Elected.{IsFinal, commit-select_validators_slots}
use stegos.Tests.Round.{
  committed, prevoted, proposed, start, heard, Reach-2, Reach-3, Reach-prevoted, Reach-proposed,
  Reach-waiting, waiting, Reach-heard, IsJourney-2, member_2, leader_starts, inv, precommit_is_open,
}

agreement_example :
    (h1 h2 : Hash) × ((committed 2).block_hash ≡ some h1)
    × ((committed 3).block_hash ≡ some h2)
    × (total (slot_counts group)
        < tally group (common (committed 2).precommits (committed 3).precommits) * 3)
    × ((k : PublicKey) × (sig1 sig2 : Signature) × (contains_key k group ≡ true)
        × (toy.check_hash h1 sig1 k ≡ true)
        × (toy.check_hash h2 sig2 k ≡ true))
agreement_example =
    agreement world toy-IsSound group group group-IsGroup 2 3 Reach-2 Reach-3 refl refl

commit-IsQuorum_example :
    (h : Hash) × ((committed 2).block_hash ≡ some h)
    × IsQuorum group (committed 2).precommits
    × Signed world h (committed 2).precommits
commit-IsQuorum_example = commit-IsQuorum world toy-IsSound group group group-IsGroup 2 Reach-2 refl

commit-check_example : Returns (commit world (committed 2)) (IsAccepted world (committed 2))
commit-check_example =
    commit-check world toy-IsSound toy-IsAdditive group group group-IsGroup 2
      (omega arith, (omega arith, (omega arith, (omega arith, tt)))) Reach-2 refl refl

feed_message-Inv_example :
    Returns
      (feed_message world 3 (from 4 ConsensusMessageBody.prevote) heard)
      (λ r. Inv world group group 2 r.0 × (depth r.0.state ≤ depth heard.state))
feed_message-Inv_example =
    feed_message-Inv world toy-IsSound group group 2 group-IsGroup 3
      (from 4 ConsensusMessageBody.prevote) heard (omega arith) (inv 2 Reach-heard) (omega arith)

next_round-Inv_example : Returns (next_round world 3 (prevoted 2)) (Inv world group group 2)
next_round-Inv_example =
    next_round-Inv world toy-IsSound group group 2 group-IsGroup 3 (omega arith) (prevoted 2)
      (inv 2 (Reach-prevoted 2 member_2 (omega arith) (omega arith) IsJourney-2)) precommit_is_open
      (λ _. refl)

reset_keeps_example : Returns (reset world 3 (prevoted 2)) (Inv world group group 2)
reset_keeps_example =
    reset_keeps world toy-IsSound group group 2 group-IsGroup 3 (omega arith) (prevoted 2)
      (inv 2 (Reach-prevoted 2 member_2 (omega arith) (omega arith) IsJourney-2))

vote-Inv_example : Returns (vote world 3 block_7 (proposed 2)) (Inv world group group 2)
vote-Inv_example =
    vote-Inv world toy-IsSound group group 2 group-IsGroup 3 (omega arith) block_7 (proposed 2)
      (inv 2 Reach-proposed) IsJourney-2.2 refl

propose-Inv_example : Returns (propose world 3 7 7 (start 1)) (Inv world group group 1)
propose-Inv_example =
    propose-Inv world toy-IsSound group group 1 group-IsGroup 3 (omega arith) 7 7 (start 1)
      (inv 1 (Reach.starts 0 elected leader_starts.0 refl leader_starts.1)) leader_starts.2

new-Inv_example : Returns (new world 0 2 2 elected (slots group)) (Inv world group group 2)
new-Inv_example = new-Inv world toy-IsSound group group 2 group-IsGroup 0 elected member_2 refl

has_supermajority_lem_example :
    Returns
      (has_supermajority heard heard.prevotes)
      (λ super. (super ≡ true) ↔ IsQuorum group heard.prevotes)
has_supermajority_lem_example =
    has_supermajority_lem world group group 2 group-IsGroup heard heard.prevotes
      (inv 2 Reach-heard).fixed (inv 2 Reach-heard).prevoters (inv 2 Reach-heard).prevotes_sorted

own_prevote_panics_example :
    (feed_message world 3 (from 2 ConsensusMessageBody.prevote) (waiting ((1, 8) ∷ (4, 32) ∷ []))
      ≡ panicked)
    ↔ IsQuorum group ((1, 8) ∷ (2, 16) ∷ (4, 32) ∷ [])
unfolding insert
own_prevote_panics_example =
    own_prevote_panics world toy-IsSound group group group-IsGroup 2 2 7 Reach-waiting refl refl
      refl

-- The three are more than two thirds of the group.
three_stop :
    feed_message world 3 (from 2 ConsensusMessageBody.prevote) (waiting ((1, 8) ∷ (4, 32) ∷ []))
    ≡ panicked
unfolding lookup insert transition sum_votes has_supermajority precommit process_body advance
    process_message check_transition check_block_hash receive feed_message check_supermajority i64
    ◌+i64◌ ◌+ℤ◌
three_stop = refl

-- With a stake of one each, the four validators draw one slot each.
group_elected :
    select_validators_slots world.mix (λ h. h + 1) (slots group) 0 (pos 4) ≡ done elected
unfolding select_validators_slots sort insert_staker draw_slots select_winner winner_loop sum_stakes
    generate_u64 shrink_hash abs_or_zero lookup insert i64 ◌+i64◌ ◌+ℤ◌
group_elected = refl

commit-select_validators_slots_example :
    Returns (commit world (committed 2)) (IsFinal world elected 4 (committed 2))
    × (4 * 2 < tally group (committed 2).precommits * 3)
    × All (λ w. is_staker w.0 group ≡ true) group
commit-select_validators_slots_example =
    commit-select_validators_slots world.mix (λ h. h + 1) world toy-IsSound toy-IsAdditive group 0 4
      group 2 (omega arith) (omega arith) (omega arith) (omega arith) group_elected refl Reach-2
      refl refl
