-- ===== src/Mvcc/Replay.antt =====
-- About the log of a map, and whether it can be replayed.
use stegos.Prelude.{
  ◌≡◌, refl, true, false, Option, none, some, List, [], ◌∷◌, arith, Option-cases, Bool-cases, inl,
  inr, Returns, Returns-bind,
}
use stegos.Prelude.Order.{Ord, gt?, ge?, eq?_refl, eq?→≡}
use stegos.BtreeMap
use stegos.BtreeMap.{BtreeMap, lookup, contains_key, lookup-insert, lookup-remove, Agree}
use stegos.Mvcc.{
  UndoRecord, undo_remove, undo_insert, MultiVersionedMap, record_lsn, current_lsn, last_lsn,
  push_previous, insert, remove, undo_change, rollback_loop, rollback_to_lsn,
}

module _ {K V L : Type 0} ⦃k : Ord K⦄ ⦃l : Ord L⦄ where
  -- Each record finds the map in the state that its assertion asks for.
  abbrev pub Replays : List (UndoRecord K V L) → BtreeMap K V → Type 0
  Replays [] m = Unit
  Replays (undo_remove lsn key ∷ undo) m =
      (contains_key key m ≡ true) × Replays undo (BtreeMap.remove key m)
  Replays (undo_insert lsn key value ∷ undo) m =
      (contains_key key m ≡ false) × Replays undo (BtreeMap.insert key value m)

  Replays-Agree :
      (undo : List (UndoRecord K V L)) (m n : BtreeMap K V)
      → Agree m n
      → Replays undo m
      → Replays undo n
  Replays-Agree [] m n a r = tt
  Replays-Agree (undo_remove lsn key ∷ undo) m n a r = (
    ground (arith, a key, r.0),
    Replays-Agree undo (BtreeMap.remove key m) (BtreeMap.remove key n)
        (λ q. ground (arith, lookup-remove key q m, lookup-remove key q n, a q)) r.1,
  )
  Replays-Agree (undo_insert lsn key value ∷ undo) m n a r = (
    ground (arith, a key, r.0),
    Replays-Agree undo (BtreeMap.insert key value m) (BtreeMap.insert key value n)
        (λ q. ground (arith, lookup-insert key q value m, lookup-insert key q value n, a q)) r.1,
  )

  -- The numbers of the log do not rise from the newest record to the checkpoint.
  abbrev pub Falling : L → List (UndoRecord K V L) → Type 0
  Falling cp [] = Unit
  Falling cp (r ∷ undo) = (ge? (record_lsn r) (last_lsn cp undo) ≡ true) × Falling cp undo

  pub record IsValid (s : MultiVersionedMap K V L) : Type 0 where
    pub replays : Replays s.undo s.map
    pub falling : Falling s.checkpoint_lsn s.undo

  Replays-push :
      (lsn : L) (key : K) (undo : List (UndoRecord K V L)) (m : BtreeMap K V)
      → Replays undo m
      → Replays (push_previous lsn key (lookup key m) undo) (BtreeMap.remove key m)
  Replays-push lsn key undo m r = elim (Option-cases (lookup key m)) [
    | inl absent ↦ rw absent (
        Replays-Agree undo m (BtreeMap.remove key m)
          (λ q. ground (arith, lookup-remove key q m, eq?→≡ q key)) r)
    | inr (prev, found) ↦ rw found (
      ground (arith, lookup-remove key key m, eq?_refl key),
      Replays-Agree undo m (BtreeMap.insert key prev (BtreeMap.remove key m))
          (λ q. ground (
            arith,
            lookup-insert key q prev (BtreeMap.remove key m),
            lookup-remove key q m,
            eq?→≡ q key,
          ))
          r,
    )
  ]

  Falling-push :
      (cp lsn : L) (key : K) (r : Option V) (undo : List (UndoRecord K V L))
      → ge? lsn (last_lsn cp undo) ≡ true
      → Falling cp undo
      → Falling cp (push_previous lsn key r undo)
  Falling-push cp lsn key none undo h f = f
  Falling-push cp lsn key (some prev) undo h f = (h, f)

  ge?-push :
      (cp lsn : L) (key : K) (r : Option V) (undo : List (UndoRecord K V L))
      → ge? lsn (last_lsn cp undo) ≡ true
      → ge? lsn (last_lsn cp (push_previous lsn key r undo)) ≡ true
  ge?-push cp lsn key none undo h = h
  ge?-push cp lsn key (some prev) undo h = ground (arith, l.cmp_refl lsn)

  -- On a map with a sound log, an insertion with a number that does not fall returns the old value,
  -- with no panic, and keeps the log sound.
  pub insert-IsValid :
      (lsn : L) (key : K) (value : V) (s : MultiVersionedMap K V L)
      → IsValid s
      → ge? lsn (current_lsn s) ≡ true
      → Returns (insert lsn key value s) (λ r. IsValid r.0 × (r.1 ≡ lookup key s.map))
  unfolding insert
  insert-IsValid lsn key value s v h = rw h (
    record {
      replays = (
        ground (arith, lookup-insert key key value s.map, eq?_refl key),
        Replays-Agree _ (BtreeMap.remove key s.map) _
            (λ q. ground (
              arith,
              lookup-remove key q s.map,
              lookup-remove key q (BtreeMap.insert key value s.map),
              lookup-insert key q value s.map,
            ))
            (Replays-push lsn key s.undo s.map v.replays),
      );
      falling = (
        ge?-push s.checkpoint_lsn lsn key _ s.undo h,
        Falling-push s.checkpoint_lsn lsn key _ s.undo h v.falling,
      );
    },
    refl,
  )

  -- On a map with a sound log, a removal with a number that does not fall returns the old value, with
  -- no panic, and keeps the log sound.
  pub remove-IsValid :
      (lsn : L) (key : K) (s : MultiVersionedMap K V L)
      → IsValid s
      → ge? lsn (current_lsn s) ≡ true
      → Returns (remove lsn key s) (λ r. IsValid r.0 × (r.1 ≡ lookup key s.map))
  unfolding remove
  remove-IsValid lsn key s v h = rw h (
    record {
      replays = Replays-push lsn key s.undo s.map v.replays;
      falling = Falling-push s.checkpoint_lsn lsn key _ s.undo h v.falling;
    },
    refl,
  )

  abbrev Stopped : L → L → List (UndoRecord K V L) × BtreeMap K V → Type 0
  Stopped cp to r = Replays r.0 r.1 × Falling cp r.0 × (gt? (last_lsn cp r.0) to ≡ false)

  undo_change-Replays :
      (to : L) (r : UndoRecord K V L) (undo : List (UndoRecord K V L)) (m : BtreeMap K V)
      → gt? (record_lsn r) to ≡ true
      → Replays (r ∷ undo) m
      → Returns (undo_change to r m) (Replays undo)
  unfolding undo_change
  undo_change-Replays to (undo_remove lsn key) undo m h r = rw (h, r.0) (r.1)
  undo_change-Replays to (undo_insert lsn key value) undo m h r = rw (h, r.0) (r.1)

  rollback_loop-Stopped :
      (cp to : L) (undo : List (UndoRecord K V L)) (m : BtreeMap K V)
      → ge? to cp ≡ true
      → Replays undo m
      → Falling cp undo
      → Returns (rollback_loop cp to undo m) (Stopped cp to)
  unfolding rollback_loop
  rollback_loop-Stopped cp to [] m h r f =
      let at_end : gt? cp to ≡ false = ground (arith, l.lt_of_gt cp to) in
      rw at_end (tt, tt, at_end)
  rollback_loop-Stopped cp to (u ∷ undo) m h r f = elim (Bool-cases (gt? (record_lsn u) to)) [
    | inl later ↦
        rw (later, rollback_loop)
          (Returns-bind (Replays undo) (Stopped cp to) (undo_change to u m)
            (rollback_loop cp to undo) (undo_change-Replays to u undo m later r)
            (λ n r'. rollback_loop-Stopped cp to undo n h r' f.1))
    | inr stop ↦ rw (stop, rollback_loop) (r, f, stop)
  ]

  -- On a sound map a rollback to any number that is not before the checkpoint returns, with no
  -- panic. The map that it gives is sound, its last number is not after the given one, and its
  -- checkpoint is unchanged.
  pub rollback_to_lsn-IsValid :
      (to_lsn : L) (s : MultiVersionedMap K V L)
      → IsValid s
      → ge? to_lsn s.checkpoint_lsn ≡ true
      → Returns (rollback_to_lsn to_lsn s) (λ t.
        IsValid t × (gt? (current_lsn t) to_lsn ≡ false) × (t.checkpoint_lsn ≡ s.checkpoint_lsn))
  unfolding rollback_to_lsn
  rollback_to_lsn-IsValid to_lsn s v h = rw h (
      Returns-bind (Stopped s.checkpoint_lsn to_lsn) _
        (rollback_loop s.checkpoint_lsn to_lsn s.undo s.map) _
        (rollback_loop-Stopped s.checkpoint_lsn to_lsn s.undo s.map h v.replays v.falling)
        (λ (undo, map) (r, f, stop). rw stop (record { replays = r; falling = f }, stop, refl)))
