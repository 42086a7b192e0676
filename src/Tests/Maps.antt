-- ===== src/Tests/Maps.antt =====
-- The map with versions, at concrete changes.
use stegos.Prelude.{ℕ, ◌≡◌, refl, false, List, [], ◌∷◌, done, Returns}
use stegos.Prelude.Order.{nat_ord, gt?}
use stegos.BtreeMap
use stegos.BtreeMap.{lookup, Agree}
use stegos.Mvcc.{
  MultiVersionedMap, current_lsn, insert, remove, rollback_to_lsn, checkpoint, Change, put, delete,
  apply, run, undo_insert, undo_remove,
}
use stegos.Mvcc.Rollback.{rollback_to_lsn-run, rollback_to_lsn_future}
use stegos.Mvcc.Replay.{IsValid, insert-IsValid, remove-IsValid, rollback_to_lsn-IsValid}
use stegos.Mvcc.Patch.{overlay, checkpoint-run}

abbrev Store : Type 0
Store = MultiVersionedMap ℕ ℕ ℕ

abbrev before : Store
before = record { map = (5, 50) ∷ []; undo = undo_remove 1 5 ∷ []; checkpoint_lsn = 0 }

abbrev changes : List (Change ℕ ℕ ℕ)
changes = put 2 5 51 ∷ delete 3 5 ∷ put 3 6 60 ∷ []

abbrev after : Store
after = record {
  map = (6, 60) ∷ [];
  undo =
      undo_remove 3 6
      ∷ undo_insert 3 5 51
      ∷ undo_remove 2 5
      ∷ undo_insert 2 5 50
      ∷ undo_remove 1 5
      ∷ [];
  checkpoint_lsn = 0;
}

changes-run : run changes before ≡ done after
unfolding run apply insert remove lookup BtreeMap.insert BtreeMap.remove
changes-run = refl

rollback_to_lsn-run_example :
    (u : Store) × (rollback_to_lsn 1 after ≡ done u)
    × Agree u.map before.map
    × (u.undo ≡ before.undo)
    × (u.checkpoint_lsn ≡ before.checkpoint_lsn)
rollback_to_lsn-run_example =
    rollback_to_lsn-run 1 changes before after refl refl (refl, (refl, (refl, tt))) changes-run

rollback_to_lsn_future_example : rollback_to_lsn 9 after ≡ done after
rollback_to_lsn_future_example = rollback_to_lsn_future 9 after refl refl

checkpoint-run_example : Returns (checkpoint after) (λ (u, patch).
    (u.undo ≡ [])
    × (u.map ≡ after.map)
    × (u.checkpoint_lsn ≡ current_lsn after)
    × ((q : ℕ) → overlay (lookup q patch) (lookup q before.map) ≡ lookup q after.map))
checkpoint-run_example = checkpoint-run changes before after changes-run

before-IsValid : IsValid before
unfolding lookup
before-IsValid = record { replays = (refl, tt); falling = (refl, tt) }

insert-IsValid_example :
    Returns (insert 2 5 51 before) (λ r. IsValid r.0 × (r.1 ≡ lookup 5 before.map))
insert-IsValid_example = insert-IsValid 2 5 51 before before-IsValid refl

remove-IsValid_example :
    Returns (remove 2 5 before) (λ r. IsValid r.0 × (r.1 ≡ lookup 5 before.map))
remove-IsValid_example = remove-IsValid 2 5 before before-IsValid refl

rollback_to_lsn-IsValid_example :
    Returns (rollback_to_lsn 0 before) (λ t.
      IsValid t × (gt? (current_lsn t) 0 ≡ false) × (t.checkpoint_lsn ≡ before.checkpoint_lsn))
rollback_to_lsn-IsValid_example = rollback_to_lsn-IsValid 0 before before-IsValid refl
