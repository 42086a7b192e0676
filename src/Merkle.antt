-- ===== src/Merkle.antt =====
-- blockchain/src/merkle.rs: Merkle trees, with their pruning, validation and serialization.
pub mod Serial
pub mod Pruned
pub mod Sound
pub mod Valid
use stegos.Prelude.{
  ℕ, zero, suc, ◌+◌, ◌*◌, ◌/◌, ◌%◌, ◌≡◌, Bool, true, false, ◌&&◌, Option, none, some, List, [], ◌∷◌,
  ◌++◌, length, get_elem?, ◌==◌, if◌then◌else◌, is_some, Outcome, done, panicked, ◌>>=◌, ◌>>◌,
  assert, unwrap, Result, ok, err,
}
use stegos.Crypto.{Hash}

-- `Subtree T` is `Option<Box<Node<T>>>`.
mutual
  pub data Node (T : Type 0) : Type 0 where
    node : (hash : Hash) (left right : Subtree T) (value : Option T) → Node T

  pub data Subtree (T : Type 0) : Type 0 where
    no_tree : Subtree T
    some_tree : Node T → Subtree T

-- The struct `Merkle` only holds the root.
abbrev pub Merkle : Type 0 → Type 0
Merkle T = Node T

pub record SerializedNode (T : Type 0) : Type 0 where
  pub hash : Hash
  pub left : Option ℕ
  pub right : Option ℕ
  pub value : Option T

pub data MerkleError : Type 0 where
  invalid_structure : MerkleError
  validation_error : (expected got : Hash) → MerkleError

-- The hasher, fed with the prefix "Leaf" and a value, or with the prefix "Inner" and two hashes.
pub record Hashing (T : Type 0) : Type 0 where
  pub leaf : T → Hash
  pub inner : Hash → Hash → Hash

-- A path is a `u32`: bit 0 of it tells the way from the root.
abbrev pub MerklePath : Type 0
MerklePath = ℕ

-- `path | 1 << bit`
abbrev or_bit : ℕ → ℕ → ℕ
or_bit path zero = path / 2 * 2 + 1
or_bit path (suc bit) = or_bit (path / 2) bit * 2 + path % 2

module _ {T : Type 0} where
  abbrev pub roothash : Merkle T → Hash
  roothash (node hash left right value) = hash

  unfoldable pub lookup : Node T → MerklePath → Outcome (Option T)
  lookup (node hash (some_tree left) (some_tree right) none) path =
      if path % 2 == 0 then lookup left (path / 2) else lookup right (path / 2)
  lookup (node hash (some_tree left) no_tree none) path =
      if path % 2 == 0 then lookup left (path / 2) else done none
  lookup (node hash no_tree (some_tree right) none) path =
      if path % 2 == 0 then done none else lookup right (path / 2)
  lookup (node hash no_tree no_tree (some value)) path = done (some value)
  lookup (node hash no_tree no_tree none) path = done none
  lookup (node hash _ _ (some value)) path = panicked

  -- Whether a subtree has nothing left.
  abbrev pub is_pruned : Subtree T → Bool
  is_pruned no_tree = true
  is_pruned (some_tree (node hash no_tree no_tree none)) = true
  is_pruned _ = false

  -- The end of `prune_r` on an inner node, after the call on one of its subtrees.
  unfoldable pub prune_parent :
      Hash → Subtree T → Subtree T → Option T → Option T → Option T × Node T
  prune_parent hash left right own none = (none, node hash left right own)
  prune_parent hash left right own (some value) =
      if is_pruned left && is_pruned right
      then (some value, node hash no_tree no_tree own)
      else (some value, node hash left right own)

  -- The value found, and the node that is left.
  unfoldable pub prune_r : Node T → MerklePath → Outcome (Option T × Node T)
  prune_r (node hash no_tree no_tree value) path = done (value, node hash no_tree no_tree none)
  prune_r (node hash (some_tree left) (some_tree right) own) path =
      if path % 2 == 0
      then (do
        (value, rest) ← prune_r left (path / 2)
        done (prune_parent hash (some_tree rest) (some_tree right) own value))
      else (do
        (value, rest) ← prune_r right (path / 2)
        done (prune_parent hash (some_tree left) (some_tree rest) own value))
  prune_r (node hash (some_tree left) no_tree own) path =
      if path % 2 == 0
      then (do
        (value, rest) ← prune_r left (path / 2)
        done (prune_parent hash (some_tree rest) no_tree own value))
      else done (none, node hash (some_tree left) no_tree own)
  prune_r (node hash no_tree (some_tree right) own) path = if path % 2 == 0 then panicked else (do
    (value, rest) ← prune_r right (path / 2)
    done (prune_parent hash no_tree (some_tree rest) own value))

  abbrev pub prune : Merkle T → MerklePath → Outcome (Option T × Merkle T)
  prune root path = prune_r root path

  -- The height is a `u8`, and a shift of a `u32` takes the distance modulo 32.
  unfoldable pub leafs_r :
      List (T × MerklePath) → Node T → MerklePath → ℕ → Outcome (List (T × MerklePath))
  leafs_r r (node hash (some_tree left) (some_tree right) none) path h = do
    r ← leafs_r r left path ((h + 1) % 256)
    leafs_r r right (or_bit path (h % 32)) ((h + 1) % 256)
  leafs_r r (node hash (some_tree left) no_tree none) path h = leafs_r r left path ((h + 1) % 256)
  leafs_r r (node hash no_tree no_tree (some value)) path h = done (r ++ (value, path) ∷ [])
  leafs_r r (node hash no_tree no_tree none) path h = done r
  leafs_r r _ path h = panicked

  unfoldable pub leafs : Merkle T → Outcome (List (T × MerklePath))
  leafs root = leafs_r [] root 0 0

-- `?` on a result.
abbrev pub and_then : {E A B : Type 0} → Result E A → (A → Result E B) → Result E B
and_then (ok a) f = f a
and_then (err e) f = err e

abbrev pub check_equal : Hash → Hash → Result MerkleError (Unit {0})
check_equal hash check_hash =
    if hash == check_hash then ok tt else err (validation_error hash check_hash)

module _ {T : Type 0} (hashing : Hashing T) where
  unfoldable pub validate_r : Node T → Result MerkleError (Unit {0})
  validate_r (node hash (some_tree left) (some_tree right) none) = and_then (validate_r left) λ _.
      and_then (validate_r right)
        λ _. check_equal hash (hashing.inner (roothash left) (roothash right))
  validate_r (node hash (some_tree left) no_tree none) =
      and_then (validate_r left)
        λ _. check_equal hash (hashing.inner (roothash left) (roothash left))
  validate_r (node hash no_tree no_tree (some value)) = check_equal hash (hashing.leaf value)
  validate_r (node hash no_tree no_tree none) = ok tt
  validate_r _ = err invalid_structure

  abbrev pub validate : Merkle T → Result MerkleError (Unit {0})
  validate root = validate_r root
