-- ===== src/BtreeMap/Sorted.antt =====
-- The order of the entries of a map.
use stegos.Prelude.{◌≡◌, none, [], ◌∷◌, arith, Ordering}
use stegos.Prelude.Order.{Ord}
use stegos.BtreeMap.{BtreeMap, lookup, insert, remove}

module _ {ℓ κ} {K : Type ℓ} {V : Type κ} ⦃o : Ord K⦄ where
  -- Every key of the map is greater than `k`.
  abbrev pub Above : K → BtreeMap K V → Type 0
  Above k [] = Unit
  Above k ((j, w) ∷ m) = (o.cmp k j ≡ Ordering.lt) × Above k m

  abbrev pub Sorted : BtreeMap K V → Type 0
  Sorted [] = Unit
  Sorted ((k, v) ∷ m) = Above k m × Sorted m

  pub Above-mono : (j k : K) (m : BtreeMap K V) → o.cmp j k ≡ Ordering.lt → Above k m → Above j m
  Above-mono j k [] h a = tt
  Above-mono j k ((i, w) ∷ m) h a = (o.lt_trans j k i h a.0, Above-mono j k m h a.1)

  pub lookup-Above : (k : K) (m : BtreeMap K V) → Above k m → lookup k m ≡ none
  unfolding lookup
  lookup-Above k [] a = ground arith
  lookup-Above k ((j, w) ∷ m) a = ground (arith, lookup-Above k m a.1)

  Above-insert :
      (j k : K) (v : V) (m : BtreeMap K V)
      → o.cmp j k ≡ Ordering.lt
      → Above j m
      → Above j (insert k v m)
  unfolding insert
  Above-insert j k v [] h a = (h, tt)
  Above-insert j k v ((i, w) ∷ m) h a = ground (arith, Above-insert j k v m h a.1)

  pub insert-Sorted : (k : K) (v : V) (m : BtreeMap K V) → Sorted m → Sorted (insert k v m)
  unfolding insert
  insert-Sorted k v [] s = (tt, tt)
  insert-Sorted k v ((j, w) ∷ m) s =
      ground
        (arith, insert-Sorted k v m s.1, Above-mono k j m, o.lt_of_gt k j, Above-insert j k v m)

  Above-remove : (j k : K) (m : BtreeMap K V) → Above j m → Above j (remove k m)
  unfolding remove
  Above-remove j k [] a = tt
  Above-remove j k ((i, w) ∷ m) a = ground (arith, Above-remove j k m a.1)

  pub remove-Sorted : (k : K) (m : BtreeMap K V) → Sorted m → Sorted (remove k m)
  unfolding remove
  remove-Sorted k [] s = tt
  remove-Sorted k ((j, w) ∷ m) s = ground (arith, remove-Sorted k m s.1, Above-remove j k m s.0)
