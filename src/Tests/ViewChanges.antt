-- ===== src/Tests/ViewChanges.antt =====
-- The view change of a small network, in which each of four validators has one slot.
use stegos.Prelude.{ℕ, ◌+◌, ◌*◌, ◌≡◌, refl, some, [], Returns, ok, get_elem?, done, arith}
use stegos.Prelude.Int.{ℤ, pos}
use stegos.BtreeMap.{lookup}
use stegos.Election.Winner.{slots}
use stegos.ViewChange.{
  ViewChangeMessage, ViewChangeCollector, Blockchain, from_blockchain, new, new_message,
  find_validator, check_message, handle_message, handle_timeout,
}
use stegos.ViewChange.Checked.{IsGroup, Inv}
use stegos.ViewChange.Proved.{Handled, handle_message-Inv}
use stegos.ViewChange.TimedOut.{check_message-handle_timeout}
use stegos.Tests.Network.{toy, toy-IsSound, toy-IsAdditive, group}

abbrev chain : Blockchain ℕ
chain = record {
  epoch = 1;
  offset = 2;
  view_change = 0;
  last_block_hash = 7;
  validators = slots group;
  total_slots = pos 4;
  validators_by_offset = λ offset. ok (slots group);
  digest = λ info. info.epoch + info.offset * 10 + info.view_change * 100 + info.last_block;
}

chain-IsGroup : IsGroup toy chain group
chain-IsGroup = record {
  validators = refl;
  total_slots = refl;
  by_offset = refl;
  have_slots = (omega arith, (omega arith, (omega arith, (omega arith, tt))));
  some_slots = omega arith;
  fits = omega arith;
}

abbrev collector : ViewChangeCollector
collector = record {
  actual_view_changes = [];
  collected_slots = pos 0;
  validator_id = 2;
  pkey = 3;
  skey = 3;
}

collector-Inv : Inv toy chain group collector
unfolding lookup
collector-Inv = record { sorted = tt; within = tt; valid = tt; slots_of = refl }

abbrev message : ViewChangeMessage
message = new_message toy chain (from_blockchain chain) 1 2

handle_message-Inv_example :
    Returns
      (handle_message toy chain message collector)
      (λ (r, result). Inv toy chain group r × Handled toy chain group message collector r result)
handle_message-Inv_example =
    handle_message-Inv toy chain group message collector toy-IsAdditive chain-IsGroup collector-Inv

collector-new : new toy chain 3 3 ≡ done collector
unfolding new find_validator
collector-new = refl

check_message-handle_timeout_example :
    (n : ℤ) × (get_elem? (slots group) 2 ≡ some (3, n))
    × (check_message toy chain (handle_timeout toy chain collector (from_blockchain chain))
        ≡ done (ok n))
check_message-handle_timeout_example =
    check_message-handle_timeout toy chain 3 3 collector toy-IsSound refl (omega arith)
      collector-new
