-- ===== src/Prelude/Order.antt =====
-- `Ord` of the standard library, with the laws that its documentation asks of `cmp`.
use Prim.Native.Nat.{ℕ, compare, Ordering}
use Prim.Native.Nat.Ordering.{lt, eq, gt}
use mathlib.Core.Path.{◌≡◌}
use mathlib.Core.Bool.{Bool, true, false}
use native.Mathlib.Omega.{arith}

-- A key stands at one place of the order, and no other key stands there.
pub record IsOrder {ℓ} {Key : Type ℓ} (cmp : Key → Key → Ordering) : Type ℓ where
  pub eq_of_cmp : (j k : Key) → cmp j k ≡ eq → j ≡ k
  pub cmp_refl : (k : Key) → cmp k k ≡ eq
  pub lt_trans : (i j k : Key) → cmp i j ≡ lt → cmp j k ≡ lt → cmp i k ≡ lt
  pub gt_of_lt : (j k : Key) → cmp j k ≡ lt → cmp k j ≡ gt
  pub lt_of_gt : (j k : Key) → cmp j k ≡ gt → cmp k j ≡ lt

pub record Ord {ℓ} (Key : Type ℓ) : Type ℓ where
  pub cmp : Key → Key → Ordering
  pub is_order : IsOrder cmp
  pub open is_order use *

-- `derive(Ord)` on a struct of two numbers: the second field decides where the first ones agree.
abbrev pub cmp_pair : ℕ × ℕ → ℕ × ℕ → Ordering
cmp_pair j k = elim (compare j.0 k.0) [ lt ↦ lt | gt ↦ gt | eq ↦ compare j.1 k.1 ]

pub compare-IsOrder : IsOrder compare
compare-IsOrder = ground arith

pub cmp_pair-IsOrder : IsOrder cmp_pair
cmp_pair-IsOrder = ground arith

instance abbrev pub nat_ord : Ord ℕ
nat_ord = record { cmp = compare; is_order = compare-IsOrder }

instance abbrev pub pair_ord : Ord (ℕ × ℕ)
pair_ord = record { cmp = cmp_pair; is_order = cmp_pair-IsOrder }

module _ {ℓ} {K : Type ℓ} ⦃o : Ord K⦄ where
  -- `a > b` and `a >= b` of the source
  abbrev pub gt? : K → K → Bool
  gt? a b = elim (o.cmp a b) [ gt ↦ true | _ ↦ false ]

  abbrev pub ge? : K → K → Bool
  ge? a b = elim (o.cmp a b) [ lt ↦ false | _ ↦ true ]

  abbrev pub eq? : K → K → Bool
  eq? a b = elim (o.cmp a b) [ eq ↦ true | _ ↦ false ]

  pub eq?_refl : (k : K) → eq? k k ≡ true
  eq?_refl k = ground (arith, o.cmp_refl k)

  pub eq?→≡ : (k j : K) → eq? k j ≡ true → k ≡ j
  eq?→≡ k j h = ground (arith, o.eq_of_cmp k j)
