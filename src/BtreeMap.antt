-- ===== src/BtreeMap.antt =====
-- The ordered map `std::collections::BTreeMap`, as the sources use it: a list of entries in
-- ascending order of their keys. A `HashMap` whose order of iteration does not matter is read so
-- too.
pub mod Sorted
pub mod Entry
use stegos.Prelude.{
  ◌≡◌, refl, Bool, Option, none, some, List, [], ◌∷◌, arith, if◌then◌else◌, is_some, Ordering,
}
use stegos.Prelude.Order.{Ord, eq?}

abbrev pub BtreeMap {ℓ κ} : Type ℓ → Type κ → Type (ℓ ⊔ κ)
BtreeMap K V = List (K × V)

module _ {ℓ κ} {K : Type ℓ} {V : Type κ} ⦃o : Ord K⦄ where
  unfoldable pub lookup : K → BtreeMap K V → Option V
  lookup k [] = none
  lookup k ((j, v) ∷ m) = if eq? k j then some v else lookup k m

  abbrev pub contains_key : K → BtreeMap K V → Bool
  contains_key k m = is_some (lookup k m)

  unfoldable pub insert : K → V → BtreeMap K V → BtreeMap K V
  insert k v [] = (k, v) ∷ []
  insert k v ((j, w) ∷ m) = elim (o.cmp k j) [
    | Ordering.lt ↦ (k, v) ∷ (j, w) ∷ m
    | Ordering.eq ↦ (j, v) ∷ m
    | Ordering.gt ↦ (j, w) ∷ insert k v m
  ]

  unfoldable pub remove : K → BtreeMap K V → BtreeMap K V
  remove k [] = []
  remove k ((j, w) ∷ m) = if eq? k j then remove k m else (j, w) ∷ remove k m

  pub lookup-insert :
      (k q : K) (v : V) (m : BtreeMap K V)
      → lookup q (insert k v m) ≡ (if eq? q k then some v else lookup q m)
  unfolding lookup insert
  lookup-insert k q v [] = refl
  lookup-insert k q v ((j, w) ∷ m) = ground (
    arith,
    o.eq_of_cmp k j,
    o.eq_of_cmp q k,
    o.eq_of_cmp q j,
    o.cmp_refl j,
    o.cmp_refl k,
    lookup-insert k q v m,
  )

  pub lookup-remove :
      (k q : K) (m : BtreeMap K V) → lookup q (remove k m) ≡ (if eq? q k then none else lookup q m)
  unfolding lookup remove
  lookup-remove k q [] = ground arith
  lookup-remove k q ((j, w) ∷ m) = ground (
    arith,
    o.eq_of_cmp k j,
    o.eq_of_cmp q k,
    o.eq_of_cmp q j,
    o.cmp_refl j,
    o.cmp_refl k,
    lookup-remove k q m,
  )

  -- Two maps with the same entries.
  abbrev pub Agree : BtreeMap K V → BtreeMap K V → Type (ℓ ⊔ κ)
  Agree m n = (q : K) → lookup q m ≡ lookup q n
