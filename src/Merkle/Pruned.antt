-- ===== src/Merkle/Pruned.antt =====
-- About `prune`.
use stegos.Prelude.{
  ◌/◌, ◌%◌, ◌≡◌, refl, Bool, true, false, ◌&&◌, Bool-cases, inl, inr, Option, none, some, ◌==◌,
  if◌then◌else◌, done, Returns, Returns-bind, Returns-mono, ok, arith,
}
use stegos.Crypto.{Hash}
use stegos.Merkle.{
  Node, node, Subtree, no_tree, some_tree, Hashing, Merkle, MerklePath, roothash, lookup, is_pruned,
  prune_parent, prune_r, prune, validate,
}
use stegos.Merkle.Valid.{IsValid, validate_r-IsValid, IsValid-validate_r}

module _ {T : Type 0} where
  -- Whether two paths lead the same way: to one leaf, or to nothing.
  unfoldable pub same_way : Node T → MerklePath → MerklePath → Bool
  same_way (node hash (some_tree left) (some_tree right) value) p q =
      if p % 2 == 0
      then (if q % 2 == 0 then same_way left (p / 2) (q / 2) else false)
      else (if q % 2 == 0 then false else same_way right (p / 2) (q / 2))
  same_way (node hash (some_tree left) no_tree value) p q =
      if p % 2 == 0
      then (if q % 2 == 0 then same_way left (p / 2) (q / 2) else false)
      else (if q % 2 == 0 then false else true)
  same_way (node hash no_tree right value) p q = true

  lookup-is_pruned :
      (t : Node T) (q : MerklePath) → is_pruned (some_tree t) ≡ true → lookup t q ≡ done none
  unfolding lookup
  lookup-is_pruned (node hash no_tree no_tree none) q e = refl
  lookup-is_pruned (node hash no_tree no_tree (some _)) q e = ground arith
  lookup-is_pruned (node hash (some_tree left) right value) q e = ground arith
  lookup-is_pruned (node hash no_tree (some_tree right) value) q e = ground arith

  -- Whatever `prune_parent` does to an inner node, a lookup sees the same.
  lookup-prune_parent :
      (hash : Hash) (left : Node T) (right : Subtree T) (value : Option T) (q : MerklePath)
      → lookup (prune_parent hash (some_tree left) right none value).1 q
        ≡ lookup (node hash (some_tree left) right none) q
  unfolding lookup prune_parent
  lookup-prune_parent hash left right none q = refl
  lookup-prune_parent hash left no_tree (some v) q = ground (arith, lookup-is_pruned left (q / 2))
  lookup-prune_parent hash left (some_tree right) (some v) q =
      ground (arith, lookup-is_pruned left (q / 2), lookup-is_pruned right (q / 2))

  prune_parent_value :
      (hash : Hash) (left right : Subtree T) (value : Option T)
      → (prune_parent hash left right none value).0 ≡ value
  unfolding prune_parent
  prune_parent_value hash left right none = refl
  prune_parent_value hash left right (some v) = ground arith

  prune_parent_hash :
      (hash : Hash) (left right : Subtree T) (value : Option T)
      → roothash (prune_parent hash left right none value).1 ≡ hash
  unfolding prune_parent
  prune_parent_hash hash left right none = refl
  prune_parent_hash hash left right (some v) = ground arith

module _ {T : Type 0} (hashing : Hashing T) where
  prune_parent-IsValid :
      (hash : Hash) (left right : Subtree T) (value : Option T)
      → IsValid hashing (node hash left right none)
      → IsValid hashing (prune_parent hash left right none value).1
  unfolding prune_parent IsValid
  prune_parent-IsValid hash left right none v = v
  prune_parent-IsValid hash left right (some _) v =
      elim (Bool-cases (is_pruned left && is_pruned right)) [ inl e ↦ rw e tt | inr e ↦ rw e v ]

  -- What a pruned tree is: a valid tree with the hash that it had, in which no path that leads the
  -- way of `path` leads to a value, and any other leads where it did.
  abbrev pub IsPruned : Node T → MerklePath → Option T × Node T → Type 0
  IsPruned t path (value, rest) =
      (lookup t path ≡ done value)
      × IsValid hashing rest
      × (roothash rest ≡ roothash t)
      × ((q : MerklePath) → lookup rest q ≡ (if same_way t path q then done none else lookup t q))

  prune_r-IsPruned :
      (t : Node T) (path : MerklePath)
      → IsValid hashing t
      → Returns (prune_r t path) (IsPruned t path)
  unfolding lookup prune_r same_way IsValid
  prune_r-IsPruned (node hash no_tree no_tree none) path v = (refl, tt, refl, λ q. refl)
  prune_r-IsPruned (node hash no_tree no_tree (some w)) path v = (refl, tt, refl, λ q. refl)
  prune_r-IsPruned (node hash (some_tree left) (some_tree right) none) path v =
      elim (Bool-cases (path % 2 == 0)) [
        | inl even ↦ rw even (
            Returns-bind (IsPruned left (path / 2))
              (IsPruned (node hash (some_tree left) (some_tree right) none) path)
              (prune_r left (path / 2)) _ (prune_r-IsPruned left (path / 2) v.0)
              λ (value, rest) found. (
                rw (even, prune_parent_value hash (some_tree rest) (some_tree right) value) found.0,
                prune_parent-IsValid hash (some_tree rest) (some_tree right) value
                    (found.1, v.1, rw found.2 v.2),
                prune_parent_hash hash (some_tree rest) (some_tree right) value,
                λ q. ground (
                  arith,
                  lookup-prune_parent hash rest (some_tree right) value q,
                  found.3 (q / 2),
                ),
              ))
        | inr odd ↦ rw odd (
            Returns-bind (IsPruned right (path / 2))
              (IsPruned (node hash (some_tree left) (some_tree right) none) path)
              (prune_r right (path / 2)) _ (prune_r-IsPruned right (path / 2) v.1)
              λ (value, rest) found. (
                rw (odd, prune_parent_value hash (some_tree left) (some_tree rest) value) found.0,
                prune_parent-IsValid hash (some_tree left) (some_tree rest) value
                    (v.0, found.1, rw found.2 v.2),
                prune_parent_hash hash (some_tree left) (some_tree rest) value,
                λ q. ground (
                  arith,
                  lookup-prune_parent hash left (some_tree rest) value q,
                  found.3 (q / 2),
                ),
              ))
      ]
  prune_r-IsPruned (node hash (some_tree left) no_tree none) path v =
      elim (Bool-cases (path % 2 == 0)) [
        | inl even ↦ rw even (
            Returns-bind (IsPruned left (path / 2))
              (IsPruned (node hash (some_tree left) no_tree none) path) (prune_r left (path / 2)) _
              (prune_r-IsPruned left (path / 2) v.0)
              λ (value, rest) found. (
                rw (even, prune_parent_value hash (some_tree rest) no_tree value) found.0,
                prune_parent-IsValid hash (some_tree rest) no_tree value (found.1, rw found.2 v.1),
                prune_parent_hash hash (some_tree rest) no_tree value,
                λ q. ground (arith, lookup-prune_parent hash rest no_tree value q, found.3 (q / 2)),
              ))
        | inr odd ↦ rw odd (rw odd refl, v, refl, λ q. ground arith)
      ]
  prune_r-IsPruned (node hash no_tree (some_tree right) none) path v = absurd v
  prune_r-IsPruned (node hash no_tree (some_tree right) (some _)) path v = absurd v
  prune_r-IsPruned (node hash (some_tree left) no_tree (some _)) path v = absurd v
  prune_r-IsPruned (node hash (some_tree left) (some_tree right) (some _)) path v = absurd v

  -- If `validate` accepts a tree, `prune` returns, with no panic, the value that `lookup` finds
  -- under the path. The tree that is left has the root hash of the old one, `validate` accepts it,
  -- and `lookup` finds in it what it found before, but nothing under a path that leads the same way.
  pub prune-validate :
      (t : Merkle T) (path : MerklePath)
      → validate hashing t ≡ ok tt
      → Returns (prune t path) (λ (value, rest).
        (lookup t path ≡ done value)
        × (validate hashing rest ≡ ok tt)
        × (roothash rest ≡ roothash t)
        × ((q : MerklePath)
            → lookup rest q ≡ (if same_way t path q then done none else lookup t q)))
  prune-validate t path v =
      Returns-mono (IsPruned t path) _ (prune t path)
        (prune_r-IsPruned t path (validate_r-IsValid hashing t v))
        λ (value, rest) (found, valid, hash, others).
          (found, IsValid-validate_r hashing rest valid, hash, others)
