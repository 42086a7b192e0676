-- ===== src/Mvcc/Rollback.antt =====
-- About `rollback_to_lsn` after changes.
use stegos.Prelude.{
  ◌≡◌, refl, ◌∙◌, true, false, List, [], ◌∷◌, arith, done, Option-cases, inl, inr, All, >>=-eq-done,
}
use stegos.Prelude.Order.{Ord, gt?, ge?, eq?_refl, eq?→≡}
use stegos.BtreeMap
use stegos.BtreeMap.{BtreeMap, lookup, lookup-insert, lookup-remove, Agree}
use stegos.Mvcc.{
  UndoRecord, MultiVersionedMap, current_lsn, last_lsn, insert, remove, undo_change, rollback_loop,
  rollback_to_lsn, Change, put, delete, change_lsn, apply, run,
}

module _ {K V L : Type 0} ⦃k : Ord K⦄ ⦃l : Ord L⦄ where
  -- From any map with the entries of `t`, the loop reaches the log of `s` with the entries of `s`.
  abbrev Undoes : L → MultiVersionedMap K V L → MultiVersionedMap K V L → Type 0
  Undoes to s t =
      (m : BtreeMap K V)
      → Agree m t.map
      → (n : BtreeMap K V) × Agree n s.map
        × (rollback_loop s.checkpoint_lsn to t.undo m ≡ rollback_loop s.checkpoint_lsn to s.undo n)

  -- What the laws of the map say of the entry at `key` and of any other entry, at `q`.
  insert-Undoes :
      (to lsn : L) (key : K) (value : V) (s : MultiVersionedMap K V L) {t : MultiVersionedMap K V L}
      → gt? lsn to ≡ true
      → apply (put lsn key value) s ≡ done t
      → Undoes to s t
  unfolding apply insert rollback_loop undo_change
  insert-Undoes to lsn key value s {t} later e m a =
      let n = BtreeMap.remove key m in
      elim (Option-cases (lookup key s.map)) [
        | inl absent ↦ (
          n,
          (λ q.
              ground
                (arith, lookup-remove key q m, lookup-insert key q value s.map, a q, eq?→≡ q key)),
          ground (arith, a key, lookup-insert key key value s.map, eq?_refl key),
        )
        | inr (prev, found) ↦ (
          BtreeMap.insert key prev n,
          (λ q. ground (
            arith,
            lookup-insert key q prev n,
            lookup-remove key q m,
            lookup-insert key q value s.map,
            a q,
            eq?→≡ q key,
          )),
          ground (
            arith,
            a key,
            lookup-insert key key value s.map,
            lookup-remove key key m,
            eq?_refl key,
          ),
        )
      ]

  remove-Undoes :
      (to lsn : L) (key : K) (s : MultiVersionedMap K V L) {t : MultiVersionedMap K V L}
      → gt? lsn to ≡ true
      → apply (delete lsn key) s ≡ done t
      → Undoes to s t
  unfolding apply remove rollback_loop undo_change
  remove-Undoes to lsn key s {t} later e m a = elim (Option-cases (lookup key s.map)) [
    | inl absent ↦
        (m, (λ q. ground (arith, lookup-remove key q s.map, a q, eq?→≡ q key)), ground arith)
    | inr (prev, found) ↦ (
      BtreeMap.insert key prev m,
      (λ q.
          ground (arith, lookup-insert key q prev m, lookup-remove key q s.map, a q, eq?→≡ q key)),
      ground (arith, a key, lookup-remove key key s.map, eq?_refl key),
    )
  ]

  apply-Undoes :
      (to : L) (c : Change K V L) (s : MultiVersionedMap K V L) {t : MultiVersionedMap K V L}
      → gt? (change_lsn c) to ≡ true
      → apply c s ≡ done t
      → Undoes to s t
  apply-Undoes to (put lsn key value) s later e = insert-Undoes to lsn key value s later e
  apply-Undoes to (delete lsn key) s later e = remove-Undoes to lsn key s later e

  checkpoint_lsn-apply :
      (c : Change K V L) (s : MultiVersionedMap K V L) {t : MultiVersionedMap K V L}
      → apply c s ≡ done t
      → t.checkpoint_lsn ≡ s.checkpoint_lsn
  unfolding apply insert remove
  checkpoint_lsn-apply (put lsn key value) s e = ground arith
  checkpoint_lsn-apply (delete lsn key) s e = ground arith

  run-Undoes :
      (to : L) (cs : List (Change K V L)) (s : MultiVersionedMap K V L)
      {t : MultiVersionedMap K V L}
      → All (λ c. gt? (change_lsn c) to ≡ true) cs
      → run cs s ≡ done t
      → Undoes to s t × (t.checkpoint_lsn ≡ s.checkpoint_lsn)
  unfolding run
  run-Undoes to [] s later e =
      ((λ m a. (m, (λ q. ground (arith, a q)), ground arith)), ground arith)
  run-Undoes to (c ∷ cs) s {t} later e =
      let (u, first, rest) = >>=-eq-done (apply c s) (run cs) e in
      let (ih, kept) = run-Undoes to cs u later.1 rest in
      (
        (λ m a.
            let (n, agree, walk) = ih m a in
            let (n', agree', walk') = apply-Undoes to c s later.0 first n agree in
            (n', agree', cc (walk, walk', checkpoint_lsn-apply c s first))),
        kept ∙ checkpoint_lsn-apply c s first,
      )

  -- The loop stops at a record that is not later than `to`, and at the end of the log.
  rollback_loop_stops :
      (cp to : L) (undo : List (UndoRecord K V L)) (m : BtreeMap K V)
      → gt? (last_lsn cp undo) to ≡ false
      → rollback_loop cp to undo m ≡ done (undo, m)
  unfolding rollback_loop
  rollback_loop_stops cp to [] m h = ground arith
  rollback_loop_stops cp to (r ∷ undo) m h = ground arith

  -- If `cs` are changes with sequence numbers after `to_lsn`, made to a map `s` whose own last
  -- sequence number is not after `to_lsn` and whose checkpoint is not either, then a rollback to
  -- `to_lsn` does not panic, and gives a map with the entries, the log and the checkpoint of `s`.
  pub rollback_to_lsn-run :
      (to_lsn : L) (cs : List (Change K V L)) (s t : MultiVersionedMap K V L)
      → ge? to_lsn s.checkpoint_lsn ≡ true
      → gt? (current_lsn s) to_lsn ≡ false
      → All (λ c. gt? (change_lsn c) to_lsn ≡ true) cs
      → run cs s ≡ done t
      → (u : MultiVersionedMap K V L) × (rollback_to_lsn to_lsn t ≡ done u)
        × Agree u.map s.map
        × (u.undo ≡ s.undo)
        × (u.checkpoint_lsn ≡ s.checkpoint_lsn)
  unfolding rollback_to_lsn
  rollback_to_lsn-run to_lsn cs s t old now later e =
      let (undoes, kept) = run-Undoes to_lsn cs s later e in
      let (n, agree, walk) = undoes t.map (λ q. refl) in
      let u = record s { map = n } in
      (
        u,
        ground (arith, walk, kept, rollback_loop_stops s.checkpoint_lsn to_lsn s.undo n now),
        agree,
        refl,
        refl,
      )

  -- A rollback to a number that is neither before the checkpoint nor before the last change changes
  -- nothing, and does not panic.
  pub rollback_to_lsn_future :
      (to_lsn : L) (s : MultiVersionedMap K V L)
      → ge? to_lsn s.checkpoint_lsn ≡ true
      → gt? (current_lsn s) to_lsn ≡ false
      → rollback_to_lsn to_lsn s ≡ done s
  unfolding rollback_to_lsn
  rollback_to_lsn_future to_lsn s old now =
      ground (arith, rollback_loop_stops s.checkpoint_lsn to_lsn s.undo s.map now)
