-- ===== src/Mvcc/Patch.antt =====
-- About the patch that `checkpoint` returns.
use stegos.Prelude.{
  ◌≡◌, refl, ◌∙◌, Bool, false, not, Option, none, some, List, [], ◌∷◌, ◌++◌, ◌||◌, ◌&&◌, arith,
  done, if◌then◌else◌, Option-cases, inl, inr, Returns, Returns-bind, Returns-mono, >>=-eq-done,
}
use mathlib.Core.List.{reverse, reverse-cons}
use stegos.Prelude.Order.{Ord, eq?, eq?_refl, eq?→≡}
use stegos.BtreeMap.{BtreeMap, lookup, contains_key, lookup-insert, lookup-remove}
use stegos.Mvcc.{
  UndoRecord, MultiVersionedMap, record_key, current_lsn, insert, remove, patch_key, patch_loop,
  reverse_patch, checkpoint, Change, put, delete, apply, run,
}

-- The old value of a key, unless the patch has a new one.
abbrev pub overlay : {V : Type 0} → Option (Option V) → Option V → Option V
overlay none old = old
overlay (some new_value) old = new_value

module _ {K V : Type 0} ⦃k : Ord K⦄ where
  patch_key_lem :
      (map : BtreeMap K V) (key : K) (result : BtreeMap K (Option V))
      → Returns (patch_key map key result) (λ r.
        (q : K)
        → lookup q r ≡ (
            if eq? q key && not (contains_key q result)
            then some (lookup key map)
            else lookup q result))
  patch_key_lem map key result = elim (Option-cases (lookup key result)) [
    | inl absent ↦
        rw absent
          (λ q. ground (arith, absent, lookup-insert key q (lookup key map) result, eq?→≡ q key))
    | inr (v, found) ↦ rw found (λ q. ground (arith, found, eq?→≡ q key))
  ]

module _ {K V L : Type 0} ⦃k : Ord K⦄ ⦃l : Ord L⦄ where
  -- The log has a record of the key.
  touched : K → List (UndoRecord K V L) → Bool
  touched q [] = false
  touched q (r ∷ undo) = eq? q (record_key r) || touched q undo

  touched-append :
      (q : K) (a b : List (UndoRecord K V L)) → touched q (a ++ b) ≡ touched q a || touched q b
  unfolding touched
  touched-append q [] b = refl
  touched-append q (r ∷ a) b = ground (arith, touched-append q a b)

  touched-reverse : (q : K) (a : List (UndoRecord K V L)) → touched q (reverse a) ≡ touched q a
  unfolding touched
  touched-reverse q [] = refl
  touched-reverse q (r ∷ a) =
      rw (reverse-cons r a, touched-append q (reverse a) (r ∷ []), touched-reverse q a)
        (ground arith)

  -- The loop gives every key of the log that has no entry yet its value in the map.
  abbrev Patches :
      BtreeMap K V
      → List (UndoRecord K V L)
      → BtreeMap K (Option V)
      → BtreeMap K (Option V)
      → Type 0
  Patches map undo result r =
      (q : K)
      → lookup q r ≡ (
          if touched q undo && not (contains_key q result)
          then some (lookup q map)
          else lookup q result)

  patch_loop-Patches :
      (map : BtreeMap K V) (undo : List (UndoRecord K V L)) (result : BtreeMap K (Option V))
      → Returns (patch_loop map undo result) (Patches map undo result)
  unfolding patch_loop touched
  patch_loop-Patches map [] result = λ q. refl
  patch_loop-Patches map (u ∷ undo) result =
      Returns-bind _ (Patches map (u ∷ undo) result) (patch_key map (record_key u) result)
        (patch_loop map undo) (patch_key_lem map (record_key u) result)
        (λ mid step.
          Returns-mono (Patches map undo mid) _ (patch_loop map undo mid)
            (patch_loop-Patches map undo mid)
            (λ r rest q. ground (arith, rest q, step q, eq?→≡ q (record_key u))))

  apply-touched :
      (q : K) (c : Change K V L) (s : MultiVersionedMap K V L) {t : MultiVersionedMap K V L}
      → apply c s ≡ done t
      → touched q t.undo ≡ false
      → (touched q s.undo ≡ false) × (lookup q t.map ≡ lookup q s.map)
  unfolding apply insert remove touched
  apply-touched q (put lsn key value) s e h = ground (arith, lookup-insert key q value s.map)
  apply-touched q (delete lsn key) s e h = ground (arith, lookup-remove key q s.map, eq?→≡ q key)

  run-touched :
      (q : K) (cs : List (Change K V L)) (s : MultiVersionedMap K V L) {t : MultiVersionedMap K V L}
      → run cs s ≡ done t
      → touched q t.undo ≡ false
      → (touched q s.undo ≡ false) × (lookup q t.map ≡ lookup q s.map)
  unfolding run
  run-touched q [] s e h = ground arith
  run-touched q (c ∷ cs) s e h =
      let (u, first, rest) = >>=-eq-done (apply c s) (run cs) e in
      let (quiet, kept) = run-touched q cs u rest h in
      let (quiet', kept') = apply-touched q c s first quiet in (quiet', kept ∙ kept')

  -- After any changes `cs` to `s`, `checkpoint` returns with an empty log, the map as it is and the
  -- last number as the checkpoint's, and its patch, laid over the entries of `s`, gives the
  -- entries of the map.
  pub checkpoint-run :
      (cs : List (Change K V L)) (s t : MultiVersionedMap K V L)
      → run cs s ≡ done t
      → Returns (checkpoint t) (λ (u, patch).
        (u.undo ≡ [])
        × (u.map ≡ t.map)
        × (u.checkpoint_lsn ≡ current_lsn t)
        × ((q : K) → overlay (lookup q patch) (lookup q s.map) ≡ lookup q t.map))
  unfolding checkpoint reverse_patch lookup
  checkpoint-run cs s t e = rw (eq?_refl (current_lsn t)) (
      Returns-bind (Patches t.map (reverse t.undo) []) _ (reverse_patch t.map t.undo) _
        (patch_loop-Patches t.map (reverse t.undo) [])
        (λ patch p. (
          refl,
          refl,
          refl,
          λ q. ground (arith, p q, touched-reverse q t.undo, run-touched q cs s e),
        )))
