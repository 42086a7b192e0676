-- ===== src/Tests/Histories.antt =====
-- The election result of an offset after a change of the view and a block.
use stegos.Prelude.{◌≡◌, refl, none, some, [], ◌∷◌, done, arith}
use stegos.BtreeMap
use stegos.BtreeMap.{lookup}
use stegos.Mvcc
use stegos.Mvcc.{UndoRecord, undo_remove, undo_insert, get}
use stegos.ViewChange.{ViewChangeProof}
use stegos.ElectionHistory.{
  Chain, macro_block_offset, election_result, view_change, insert_result, set_view_change,
  finish_micro_block, lsn_before, election_result_by_offset, sets_view_change, finishes_block,
  stays, goes,
}
use stegos.ElectionHistory.Past.{election_result_by_offset-Steps}
use stegos.Tests.Network.{elected}

abbrev start : Chain
start = record {
  epoch = 1;
  offset = 2;
  election_result = record {
    map = (tt, elected) ∷ [];
    undo = undo_remove (1, 1) tt ∷ [];
    checkpoint_lsn = (0, macro_block_offset);
  };
  view_change_proof = none;
}

abbrev proof : ViewChangeProof
proof = record { multimap = []; multisig = 0 }

abbrev changed_view : Chain
changed_view = record {
  epoch = 1;
  offset = 2;
  election_result = record {
    map = (tt, record elected { view_change = 1 }) ∷ [];
    undo = undo_remove (1, 2) tt ∷ undo_insert (1, 2) tt elected ∷ undo_remove (1, 1) tt ∷ [];
    checkpoint_lsn = (0, macro_block_offset);
  };
  view_change_proof = some proof;
}

abbrev next_block : Chain
next_block = record {
  epoch = 1;
  offset = 3;
  election_result = record {
    map = (tt, record elected { view_change = 0; random = 5 }) ∷ [];
    undo =
        undo_remove (1, 2) tt
        ∷ undo_insert (1, 2) tt (record elected { view_change = 1 })
        ∷ undo_remove (1, 2) tt
        ∷ undo_insert (1, 2) tt elected
        ∷ undo_remove (1, 1) tt
        ∷ [];
    checkpoint_lsn = (0, macro_block_offset);
  };
  view_change_proof = none;
}

view_changes : set_view_change 1 proof start ≡ done changed_view
unfolding set_view_change view_change election_result insert_result get Mvcc.insert lookup
    BtreeMap.insert
view_changes = refl

block_finishes : finish_micro_block 5 changed_view ≡ done next_block
unfolding finish_micro_block election_result insert_result get Mvcc.insert lookup BtreeMap.insert
block_finishes = refl

is_held : election_result start ≡ done elected
unfolding election_result get lookup
is_held = refl

election_result_by_offset-Steps_example : election_result_by_offset 2 next_block ≡ done elected
unfolding lsn_before
election_result_by_offset-Steps_example =
    election_result_by_offset-Steps start next_block (omega arith) is_held refl refl (
      goes (goes stays (sets_view_change 1 proof view_changes))
        (finishes_block 5 (omega arith) block_finishes))
