-- ===== src/Tests/Slashings.antt =====
-- A leader of the small network who signs two blocks, with the stakes of the network.
use stegos.Prelude.{
  ℕ, ◌+◌, ◌/◌, ◌≡◌, ◌≢◌, ◌↔◌, refl, true, none, List, [], ◌∷◌, length, done, ok, arith,
}
use stegos.Prelude.Int.{pos, i64, ◌+i64◌, ◌+ℤ◌}
use stegos.Election.{
  select_leader, select_winner, winner_loop, sum_stakes, generate_u64, shrink_hash, abs_or_zero,
}
use stegos.Election.Winner.{slots}
use stegos.Escrow.{Escrow, iter_validator_stakes, range, account_by_network_key}
use stegos.Escrow.Stake.{stake_value}
use stegos.BtreeMap
use stegos.BtreeMap.{lookup}
use stegos.Mvcc
use stegos.Slashing.Caught.{IsDouble, validate_proof-Steps}
use stegos.Mvcc.{UndoRecord, undo_remove, undo_insert, get, rollback_to_lsn, rollback_loop}
use stegos.ElectionHistory.{
  Chain, election_result, insert_result, finish_micro_block, finishes_block, stays, goes,
  macro_block_offset, lsn_before, election_result_by_offset,
}
use stegos.Transaction.{
  Primitives, MicroBlock, SlashingProof, SlashingTransaction, public_payment_output,
}
use stegos.Slashing.{
  Blockchain, active_stakes, other_validators, share_out, validate_proof, confiscate_tx,
  validate_slashing,
}
use stegos.Slashing.Proof.{IsConflict, validate_proof_lem}
use stegos.Slashing.Shared.{total_paid, PaidTo, confiscate_tx_lem}
use stegos.Slashing.Accepted.{validate_slashing-confiscate_tx}
use stegos.Tests.Network.{toy, world, group, elected}

abbrev primitives : Primitives
primitives = record {
  signing = toy;
  digest = λ o. 0;
  digest_tx = λ tx. 0;
  digest_block = λ b. b.epoch + b.offset + length b.content;
  inf = 0;
  add = λ a b. a + b;
  sub = λ a b. a;
  commit = λ gamma amount. 0;
  commit_amount = λ amount. 0;
  blind = λ gamma. 0;
  point = λ key. key;
  validate_range_proof = λ proof. true;
  validate_sig = λ h sig key. true;
}

abbrev staking : Escrow
staking = record {
  map =
      ((1, 5), stake_value 11 10 (pos 100))
      ∷ ((1, 6), stake_value 11 0 (pos 30))
      ∷ ((2, 7), stake_value 12 10 (pos 10))
      ∷ ((3, 8), stake_value 13 10 (pos 10))
      ∷ ((4, 9), stake_value 14 10 (pos 10))
      ∷ [];
  undo = [];
  checkpoint_lsn = (0, 0);
}

abbrev history : Chain
history = record {
  epoch = 1;
  offset = 2;
  election_result = record {
    map = (tt, elected) ∷ [];
    undo = [];
    checkpoint_lsn = (0, macro_block_offset);
  };
  view_change_proof = none;
}

abbrev after_block : Chain
after_block = record {
  epoch = 1;
  offset = 3;
  election_result = record {
    map = (tt, record elected { view_change = 0; random = 5 }) ∷ [];
    undo = undo_remove (1, 2) tt ∷ undo_insert (1, 2) tt elected ∷ [];
    checkpoint_lsn = (0, macro_block_offset);
  };
  view_change_proof = none;
}

later_block : finish_micro_block 5 history ≡ done after_block
unfolding finish_micro_block election_result insert_result get Mvcc.insert lookup BtreeMap.insert
later_block = refl

abbrev chain : Blockchain
chain = record { history = history; validators = slots group; escrow = staking }

abbrev signed_block : List ℕ → ℕ → MicroBlock
signed_block content sig = record {
  epoch = 1;
  offset = 2;
  previous = 7;
  view_change = 0;
  pkey = 1;
  content = content;
  sig = sig;
}

abbrev conflict : SlashingProof
conflict = record { block1 = signed_block [] 3; block2 = signed_block (5 ∷ []) 4 }

conflict-valid : validate_proof primitives world.mix chain conflict ≡ done (ok tt)
unfolding validate_proof select_leader select_winner winner_loop sum_stakes generate_u64 shrink_hash
    abs_or_zero i64 ◌+i64◌ ◌+ℤ◌ election_result_by_offset rollback_to_lsn lsn_before rollback_loop
    get lookup
conflict-valid = refl

validate_proof_lem_example :
    (validate_proof primitives world.mix chain conflict ≡ done (ok tt))
    ↔ IsConflict primitives world.mix chain conflict
validate_proof_lem_example = validate_proof_lem primitives world.mix chain conflict

confiscated_stakes :
    active_stakes 1 ([], pos 0) (iter_validator_stakes 1 staking) ≡ (5 ∷ [], pos 100)
unfolding active_stakes iter_validator_stakes range i64 ◌+i64◌ ◌+ℤ◌
confiscated_stakes = refl

punished : other_validators 1 (slots group) ≡ 2 ∷ 3 ∷ 4 ∷ []
unfolding other_validators
punished = refl

abbrev punishment : SlashingTransaction
punishment = record {
  proof = conflict;
  txins = 5 ∷ [];
  txouts =
      public_payment_output (record { recipient = 12; serno = pos 0; amount = pos 34 })
      ∷ public_payment_output (record { recipient = 13; serno = pos 1; amount = pos 33 })
      ∷ public_payment_output (record { recipient = 14; serno = pos 2; amount = pos 33 })
      ∷ [];
}

confiscated : confiscate_tx primitives world.mix chain pos 2 conflict ≡ done (ok punishment)
unfolding confiscate_tx validate_proof select_leader select_winner winner_loop sum_stakes
    generate_u64 shrink_hash abs_or_zero election_result_by_offset lsn_before rollback_to_lsn
    rollback_loop get lookup i64 ◌+i64◌ ◌+ℤ◌ active_stakes iter_validator_stakes range
    other_validators share_out account_by_network_key
confiscated = refl

confiscate_tx_lem_example :
    (tx : SlashingTransaction) × (confiscate_tx primitives world.mix chain pos 2 conflict
      ≡ done (ok tx))
    × (tx.txins ≡ 5 ∷ [])
    × PaidTo staking
        (100 / length (other_validators 1 (slots group)))
        (other_validators 1 (slots group))
        tx.txouts
    × (total_paid tx.txouts ≡ pos 100)
unfolding other_validators account_by_network_key iter_validator_stakes range
confiscate_tx_lem_example =
    confiscate_tx_lem primitives world.mix chain pos 2 conflict refl conflict-valid
      confiscated_stakes (omega arith) (omega arith) ((12, refl), ((13, refl), ((14, refl), tt)))
      refl

validate_slashing-confiscate_tx_example :
    validate_slashing primitives world.mix chain (λ i. pos 9) 2 punishment ≡ done (ok tt)
validate_slashing-confiscate_tx_example =
    validate_slashing-confiscate_tx primitives world.mix chain pos (λ i. pos 9) 2 conflict
      punishment confiscated

conflict-differ : ◌≢◌ {A = ℕ} 3 4
conflict-differ same = absurd (omega (arith, same))

conflict-IsDouble : IsDouble primitives history conflict
conflict-IsDouble = record {
  epoch1 = refl;
  epoch2 = refl;
  offset1 = refl;
  offset2 = refl;
  previous = refl;
  view_change = refl;
  differ = conflict-differ;
}

elected_leader : select_leader world.mix elected 0 ≡ done 1
unfolding select_leader select_winner winner_loop sum_stakes generate_u64 shrink_hash abs_or_zero
    i64 ◌+i64◌ ◌+ℤ◌
elected_leader = refl

is_held : election_result history ≡ done elected
unfolding election_result get lookup
is_held = refl

validate_proof-Steps_example :
    validate_proof primitives world.mix (record chain { history = after_block }) conflict
    ≡ done (ok tt)
unfolding lsn_before
validate_proof-Steps_example =
    validate_proof-Steps primitives world.mix history (record chain { history = after_block })
      conflict (omega arith) is_held refl refl
      (goes stays (finishes_block 5 (omega arith) later_block)) conflict-IsDouble elected_leader
      refl refl
