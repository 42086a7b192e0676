-- ===== src/Merkle/Sound.antt =====
-- About two trees with one root hash.
use stegos.Prelude.{
  ◌/◌, ◌%◌, ◌≡◌, ◌≢◌, sym, ◌∙◌, Bool-cases, inl, inr, none, some, ◌==◌, done, ok, arith,
}
use stegos.Crypto.{Hash}
use stegos.Merkle.{
  Node, node, no_tree, some_tree, Hashing, Merkle, MerklePath, roothash, lookup, validate,
}
use stegos.Merkle.Valid.{IsValid, validate_r-IsValid}

-- The hash has no collisions: it tells values, pairs of hashes, and the two prefixes apart.
pub record NoCollision {T : Type 0} (hashing : Hashing T) : Type 0 where
  pub leaf_inj : (v w : T) → hashing.leaf v ≡ hashing.leaf w → v ≡ w
  pub inner_inj : (h i j k : Hash) → hashing.inner h i ≡ hashing.inner j k → (h ≡ j) × (i ≡ k)
  pub leaf_inner : (v : T) (h i : Hash) → hashing.leaf v ≢ hashing.inner h i

module _ {T : Type 0} (hashing : Hashing T) (safe : NoCollision hashing) where
  lookup-agree :
      (s t : Node T) (path : MerklePath) {v w : T}
      → IsValid hashing s
      → IsValid hashing t
      → roothash s ≡ roothash t
      → lookup s path ≡ done (some v)
      → lookup t path ≡ done (some w)
      → v ≡ w
  unfolding lookup IsValid
  lookup-agree (node h (some_tree l) (some_tree r) none) (node k (some_tree m) (some_tree s) none)
        path vs vt e es et =
      let (el, er) =
        safe.inner_inj (roothash l) (roothash r) (roothash m) (roothash s) (sym vs.2 ∙ e ∙ vt.2) in
      elim (Bool-cases (path % 2 == 0)) [
        | inl even ↦ lookup-agree l m (path / 2) vs.0 vt.0 el (rw even at es) (rw even at et)
        | inr odd ↦ lookup-agree r s (path / 2) vs.1 vt.1 er (rw odd at es) (rw odd at et)
      ]
  lookup-agree (node h (some_tree l) (some_tree r) none) (node k (some_tree m) no_tree none) path vs
        vt e es et =
      let (el, er) =
        safe.inner_inj (roothash l) (roothash r) (roothash m) (roothash m) (sym vs.2 ∙ e ∙ vt.1) in
      elim (Bool-cases (path % 2 == 0)) [
        | inl even ↦ lookup-agree l m (path / 2) vs.0 vt.0 el (rw even at es) (rw even at et)
        | inr odd ↦ ground (arith)
      ]
  lookup-agree (node h (some_tree l) no_tree none) (node k (some_tree m) (some_tree s) none) path vs
        vt e es et =
      let (el, er) =
        safe.inner_inj (roothash l) (roothash l) (roothash m) (roothash s) (sym vs.1 ∙ e ∙ vt.2) in
      elim (Bool-cases (path % 2 == 0)) [
        | inl even ↦ lookup-agree l m (path / 2) vs.0 vt.0 el (rw even at es) (rw even at et)
        | inr odd ↦ ground (arith)
      ]
  lookup-agree (node h (some_tree l) no_tree none) (node k (some_tree m) no_tree none) path vs vt e
        es et =
      let (el, er) =
        safe.inner_inj (roothash l) (roothash l) (roothash m) (roothash m) (sym vs.1 ∙ e ∙ vt.1) in
      elim (Bool-cases (path % 2 == 0)) [
        | inl even ↦ lookup-agree l m (path / 2) vs.0 vt.0 el (rw even at es) (rw even at et)
        | inr odd ↦ ground (arith)
      ]
  lookup-agree (node h no_tree no_tree (some v)) (node k no_tree no_tree (some w)) path vs vt e es
        et =
      ground (arith, safe.leaf_inj v w)
  lookup-agree (node h no_tree no_tree (some v)) (node k (some_tree m) (some_tree s) none) path vs
        vt e es et =
      ground (arith, safe.leaf_inner v (roothash m) (roothash s))
  lookup-agree (node h no_tree no_tree (some v)) (node k (some_tree m) no_tree none) path vs vt e es
        et =
      ground (arith, safe.leaf_inner v (roothash m) (roothash m))
  lookup-agree (node k (some_tree m) (some_tree s) none) (node h no_tree no_tree (some v)) path vs
        vt e es et =
      ground (arith, safe.leaf_inner v (roothash m) (roothash s))
  lookup-agree (node k (some_tree m) no_tree none) (node h no_tree no_tree (some v)) path vs vt e es
        et =
      ground (arith, safe.leaf_inner v (roothash m) (roothash m))
  lookup-agree (node h no_tree no_tree none) t path vs vt e es et = ground arith
  lookup-agree s (node h no_tree no_tree none) path vs vt e es et = ground arith
  lookup-agree (node h (some_tree _) no_tree (some _)) t path vs vt e es et = absurd vs
  lookup-agree (node h (some_tree _) (some_tree _) (some _)) t path vs vt e es et = absurd vs
  lookup-agree (node h no_tree (some_tree _) none) t path vs vt e es et = absurd vs
  lookup-agree (node h no_tree (some_tree _) (some _)) t path vs vt e es et = absurd vs
  lookup-agree s (node h (some_tree _) no_tree (some _)) path vs vt e es et = absurd vt
  lookup-agree s (node h (some_tree _) (some_tree _) (some _)) path vs vt e es et = absurd vt
  lookup-agree s (node h no_tree (some_tree _) none) path vs vt e es et = absurd vt
  lookup-agree s (node h no_tree (some_tree _) (some _)) path vs vt e es et = absurd vt

  -- If `validate` accepts two trees with one root hash, and `hashing` has no collisions, then a path
  -- that leads to a value in both leads to the same value.
  pub lookup-validate :
      (s t : Merkle T) (path : MerklePath) {v w : T}
      → validate hashing s ≡ ok tt
      → validate hashing t ≡ ok tt
      → roothash s ≡ roothash t
      → lookup s path ≡ done (some v)
      → lookup t path ≡ done (some w)
      → v ≡ w
  lookup-validate s t path vs vt =
      lookup-agree s t path (validate_r-IsValid hashing s vs) (validate_r-IsValid hashing t vt)
