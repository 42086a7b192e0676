-- ===== src/Mvcc.antt =====
-- blockchain/src/mvcc.rs: a map with versions, and the log that undoes its changes.
-- A method returns the new state, and its result beside it. `undo` holds the newest record first.
pub mod Replay
pub mod Rollback
pub mod Patch
use stegos.Prelude.{
  ◌≡◌, Bool, true, false, not, Option, none, some, List, [], ◌∷◌, is_some, if◌then◌else◌, Outcome,
  done, panicked, ◌>>=◌, ◌>>◌, assert,
}
use stegos.Prelude.Order.{Ord, gt?, ge?, eq?}
use stegos.BtreeMap
use stegos.BtreeMap.{BtreeMap, lookup, contains_key}
use mathlib.Core.List.{reverse}

pub data UndoRecord (K V L : Type 0) : Type 0 where
  undo_remove : (lsn : L) (key : K) → UndoRecord K V L
  undo_insert : (lsn : L) (key : K) (value : V) → UndoRecord K V L

pub record MultiVersionedMap (K V L : Type 0) : Type 0 where
  pub map : BtreeMap K V
  pub undo : List (UndoRecord K V L)
  pub checkpoint_lsn : L

module _ {K V L : Type 0} where
  abbrev pub record_lsn : UndoRecord K V L → L
  record_lsn (undo_remove lsn key) = lsn
  record_lsn (undo_insert lsn key value) = lsn

  abbrev pub record_key : UndoRecord K V L → K
  record_key (undo_remove lsn key) = key
  record_key (undo_insert lsn key value) = key

  -- `new`; `lsn` is the default of `L`.
  abbrev pub new : L → MultiVersionedMap K V L
  new lsn = record { map = []; undo = []; checkpoint_lsn = lsn }

  abbrev pub last_lsn : L → List (UndoRecord K V L) → L
  last_lsn checkpoint_lsn [] = checkpoint_lsn
  last_lsn checkpoint_lsn (r ∷ undo) = record_lsn r

  abbrev pub current_lsn : MultiVersionedMap K V L → L
  current_lsn s = last_lsn s.checkpoint_lsn s.undo

  -- The record that restores a value which was overwritten or removed.
  abbrev pub push_previous : L → K → Option V → List (UndoRecord K V L) → List (UndoRecord K V L)
  push_previous lsn key none undo = undo
  push_previous lsn key (some prev_value) undo = undo_insert lsn key prev_value ∷ undo

  unfoldable pub reset : L → MultiVersionedMap K V L → MultiVersionedMap K V L
  reset lsn s = record s { map = []; undo = []; checkpoint_lsn = lsn }

module _ {K V : Type 0} ⦃k : Ord K⦄ where
  -- One round of the loop of `reverse_patch`.
  abbrev pub patch_key : BtreeMap K V → K → BtreeMap K (Option V) → Outcome (BtreeMap K (Option V))
  patch_key map key result =
      if contains_key key result
      then done result
      else (assert (not (contains_key key result))
          >> done (BtreeMap.insert key (lookup key map) result))

module _ {K V L : Type 0} ⦃k : Ord K⦄ ⦃l : Ord L⦄ where
  unfoldable pub get : K → MultiVersionedMap K V L → Option V
  get key s = lookup key s.map

  unfoldable pub insert :
      L → K → V → MultiVersionedMap K V L → Outcome (MultiVersionedMap K V L × Option V)
  insert lsn key value s = do
    assert (ge? lsn (current_lsn s))
    let r = lookup key s.map
    done (
      record s {
        map = BtreeMap.insert key value s.map;
        undo = undo_remove lsn key ∷ push_previous lsn key r s.undo;
      },
      r,
    )

  unfoldable pub remove :
      L → K → MultiVersionedMap K V L → Outcome (MultiVersionedMap K V L × Option V)
  remove lsn key s = do
    assert (ge? lsn (current_lsn s))
    let r = lookup key s.map
    done (record s { map = BtreeMap.remove key s.map; undo = push_previous lsn key r s.undo }, r)

  -- The body of the loop of `rollback_to_lsn`, with the record that it pops.
  unfoldable pub undo_change : L → UndoRecord K V L → BtreeMap K V → Outcome (BtreeMap K V)
  undo_change to_lsn (undo_insert lsn key value) map = do
    assert (gt? lsn to_lsn)
    assert (not (contains_key key map))
    done (BtreeMap.insert key value map)
  undo_change to_lsn (undo_remove lsn key) map = do
    assert (gt? lsn to_lsn)
    assert (contains_key key map)
    done (BtreeMap.remove key map)

  -- The loop; its test reads `checkpoint_lsn` once the log is empty.
  unfoldable pub rollback_loop :
      L
      → L
      → List (UndoRecord K V L)
      → BtreeMap K V
      → Outcome (List (UndoRecord K V L) × BtreeMap K V)
  rollback_loop checkpoint_lsn to_lsn [] map =
      if gt? checkpoint_lsn to_lsn then panicked else done ([], map)
  rollback_loop checkpoint_lsn to_lsn (r ∷ undo) map = elim (gt? (record_lsn r) to_lsn) [
    | true ↦ undo_change to_lsn r map >>= rollback_loop checkpoint_lsn to_lsn undo
    | false ↦ done (r ∷ undo, map)
  ]

  unfoldable pub rollback_to_lsn : L → MultiVersionedMap K V L → Outcome (MultiVersionedMap K V L)
  rollback_to_lsn to_lsn s = do
    assert (ge? to_lsn s.checkpoint_lsn)
    (undo, map) ← rollback_loop s.checkpoint_lsn to_lsn s.undo s.map
    assert (not (gt? (last_lsn s.checkpoint_lsn undo) to_lsn))
    done (record s { map = map; undo = undo })

  unfoldable pub patch_loop :
      BtreeMap K V
      → List (UndoRecord K V L)
      → BtreeMap K (Option V)
      → Outcome (BtreeMap K (Option V))
  patch_loop map [] result = done result
  patch_loop map (r ∷ undo) result = patch_key map (record_key r) result >>= patch_loop map undo

  -- The loop of `reverse_patch` runs from the oldest record on.
  unfoldable pub reverse_patch :
      BtreeMap K V → List (UndoRecord K V L) → Outcome (BtreeMap K (Option V))
  reverse_patch map undo = patch_loop map (reverse undo) []

  unfoldable pub checkpoint :
      MultiVersionedMap K V L → Outcome (MultiVersionedMap K V L × BtreeMap K (Option V))
  checkpoint s = do
    let t = record s { undo = []; checkpoint_lsn = current_lsn s }
    assert (eq? (current_lsn t) t.checkpoint_lsn)
    patch ← reverse_patch t.map s.undo
    done (t, patch)

-- The changes that a caller makes.
pub data Change (K V L : Type 0) : Type 0 where
  put : (lsn : L) (key : K) (value : V) → Change K V L
  delete : (lsn : L) (key : K) → Change K V L

module _ {K V L : Type 0} ⦃k : Ord K⦄ ⦃l : Ord L⦄ where
  abbrev pub change_lsn : Change K V L → L
  change_lsn (put lsn key value) = lsn
  change_lsn (delete lsn key) = lsn

  unfoldable pub apply : Change K V L → MultiVersionedMap K V L → Outcome (MultiVersionedMap K V L)
  apply (put lsn key value) s = do (t, _) ← insert lsn key value s; done t
  apply (delete lsn key) s = do (t, _) ← remove lsn key s; done t

  unfoldable pub run :
      List (Change K V L) → MultiVersionedMap K V L → Outcome (MultiVersionedMap K V L)
  run [] s = done s
  run (c ∷ cs) s = apply c s >>= run cs
