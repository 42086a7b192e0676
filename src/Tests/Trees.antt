-- ===== src/Tests/Trees.antt =====
-- Concrete Merkle trees.
use stegos.Prelude.{
  ℕ, zero, suc, ◌+◌, ◌≡◌, refl, [], ◌∷◌, some, none, done, ok, Returns, if◌then◌else◌, arith,
}
use stegos.Merkle.{
  Node, node, no_tree, some_tree, Hashing, Merkle, MerklePath, roothash, lookup, validate,
  validate_r, prune, prune_r, prune_parent, leafs, leafs_r,
}
use stegos.Merkle.Sound.{NoCollision, lookup-validate}
use stegos.Merkle.Pruned.{same_way, prune-validate}
use stegos.Merkle.Serial.{serialize, deserialize}
use stegos.Merkle.Serial.Roundtrip.{deserialize-serialize}

-- A pairing of numbers.
unfoldable pair : ℕ → ℕ → ℕ
pair zero b = b + b + 1
pair (suc a) b = pair a b + pair a b

pair_inj : (a b c d : ℕ) → pair a b ≡ pair c d → (a ≡ c) × (b ≡ d)
unfolding pair
pair_inj zero b zero d e = (refl, omega (arith, e))
pair_inj zero b (suc c) d e = absurd (omega (arith, e))
pair_inj (suc a) b zero d e = absurd (omega (arith, e))
pair_inj (suc a) b (suc c) d e =
    let (ea, eb) = pair_inj a b c d (omega (arith, e)) in (omega (arith, ea), eb)

abbrev toy_hash : Hashing ℕ
toy_hash = record { leaf = λ v. v + v + 1; inner = λ h i. pair h i + pair h i }

toy_hash-NoCollision : NoCollision toy_hash
toy_hash-NoCollision = record {
  leaf_inj = λ v w e. omega (arith, e);
  inner_inj = λ h i j k e. pair_inj h i j k (omega (arith, e));
  leaf_inner = λ v h i e. omega (arith, e);
}

abbrev leaf : ℕ → Node ℕ
leaf v = node (v + v + 1) no_tree no_tree (some v)

abbrev two_leafs : Merkle ℕ
two_leafs = node 28 (some_tree (leaf 0)) (some_tree (leaf 1)) none

two_leafs-valid : validate toy_hash two_leafs ≡ ok tt
unfolding validate_r pair
two_leafs-valid = refl

-- The tree after its left leaf was pruned.
abbrev right_leaf : Merkle ℕ
right_leaf = node 28 (some_tree (node 1 no_tree no_tree none)) (some_tree (leaf 1)) none

right_leaf-valid : validate toy_hash right_leaf ≡ ok tt
unfolding validate_r pair
right_leaf-valid = refl

lookup-two_leafs : lookup two_leafs 1 ≡ done (some 1)
unfolding lookup
lookup-two_leafs = refl

lookup-right_leaf : lookup right_leaf 1 ≡ done (some 1)
unfolding lookup
lookup-right_leaf = refl

pruned : prune two_leafs 0 ≡ done (some 0, right_leaf)
unfolding prune_r prune_parent
pruned = refl

listed : leafs two_leafs ≡ done ((0, 0) ∷ (1, 1) ∷ [])
unfolding leafs leafs_r
listed = refl

lookup-validate_example : ◌≡◌ {A = ℕ} 1 1
lookup-validate_example =
    lookup-validate toy_hash toy_hash-NoCollision two_leafs right_leaf 1 two_leafs-valid
      right_leaf-valid refl lookup-two_leafs lookup-right_leaf

prune-validate_example : Returns (prune two_leafs 0) (λ (value, rest).
    (lookup two_leafs 0 ≡ done value)
    × (validate toy_hash rest ≡ ok tt)
    × (roothash rest ≡ roothash two_leafs)
    × ((q : MerklePath)
        → lookup rest q ≡ (if same_way two_leafs 0 q then done none else lookup two_leafs q)))
prune-validate_example = prune-validate toy_hash two_leafs 0 two_leafs-valid

deserialize-serialize_example :
    Returns (serialize two_leafs) (λ items. deserialize toy_hash items ≡ done (ok two_leafs))
deserialize-serialize_example = deserialize-serialize toy_hash two_leafs two_leafs-valid
