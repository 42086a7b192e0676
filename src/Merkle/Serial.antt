-- ===== src/Merkle/Serial.antt =====
-- The linear form of a Merkle tree: `serialize` and `deserialize`.
pub mod Roundtrip
use stegos.Prelude.{
  ℕ, zero, suc, ◌-◌, Bool, true, false, not, Option, none, some, List, [], ◌∷◌, ◌++◌, length,
  get_elem?, ltb, if◌then◌else◌, is_some, Outcome, done, panicked, ◌>>=◌, ◌>>◌, assert, unwrap,
  Result, ok, err,
}
use stegos.Merkle.{
  Node, node, Subtree, no_tree, some_tree, Merkle, SerializedNode, MerkleError, Hashing,
  invalid_structure, validate_r, and_then,
}

module _ {T : Type 0} where
  -- The vector with the nodes pushed, and the index of the last of them.
  unfoldable pub serialize_r :
      List (SerializedNode T) → Node T → Outcome (List (SerializedNode T) × ℕ)
  serialize_r r (node hash (some_tree left) (some_tree right) none) = do
    (r, left) ← serialize_r r left
    (r, right) ← serialize_r r right
    let item : SerializedNode T = record {
      hash = hash;
      left = some left;
      right = some right;
      value = none;
    }
    done (r ++ item ∷ [], length r)
  serialize_r r (node hash (some_tree left) no_tree none) = do
    (r, left) ← serialize_r r left
    let item : SerializedNode T = record {
      hash = hash;
      left = some left;
      right = none;
      value = none;
    }
    done (r ++ item ∷ [], length r)
  serialize_r r (node hash no_tree no_tree value) =
      let item : SerializedNode T = record {
        hash = hash;
        left = none;
        right = none;
        value = value;
      } in
      done (r ++ item ∷ [], length r)
  serialize_r r _ = panicked

  unfoldable pub serialize : Merkle T → Outcome (List (SerializedNode T))
  serialize root = do (r, _) ← serialize_r [] root; done r

  -- `nodes[i].take()`, what is left
  abbrev pub take_node : List (Subtree T) → ℕ → List (Subtree T)
  take_node [] i = []
  take_node (n ∷ nodes) zero = no_tree ∷ nodes
  take_node (n ∷ nodes) (suc i) = n ∷ take_node nodes i

  -- The subtree that an index of the serialized form stands for, and the nodes without it.
  unfoldable pub restore :
      List (Subtree T) → Option ℕ → Result MerkleError (Subtree T × List (Subtree T))
  restore nodes none = ok (no_tree, nodes)
  restore nodes (some i) = elim (get_elem? nodes i) [
    | none ↦ err invalid_structure
    | some no_tree ↦ err invalid_structure
    | some (some_tree t) ↦ ok (some_tree t, take_node nodes i)
  ]

  -- The loop of `deserialize`.
  unfoldable pub build_nodes :
      List (Subtree T) → List (SerializedNode T) → Result MerkleError (List (Subtree T))
  build_nodes nodes [] = ok nodes
  build_nodes nodes (item ∷ items) = and_then (restore nodes item.left) λ (left, nodes).
      and_then (restore nodes item.right) λ (right, nodes).
        build_nodes (nodes ++ some_tree (node item.hash left right item.value) ∷ []) items

  -- `nodes.pop()`: the last element, and the others.
  unfoldable pub pop : List (Subtree T) → Option (Subtree T × List (Subtree T))
  pop [] = none
  pop (n ∷ nodes) = elim (pop nodes) [
    | none ↦ some (n, nodes)
    | some (last, others) ↦ some (last, n ∷ others)
  ]

  -- `take().unwrap()`
  abbrev pub take_root : Subtree T → Outcome (Node T)
  take_root no_tree = panicked
  take_root (some_tree root) = done root

  -- Whether every node has found its parent.
  abbrev pub all_taken : List (Subtree T) → Bool
  all_taken [] = true
  all_taken (no_tree ∷ nodes) = all_taken nodes
  all_taken (some_tree n ∷ nodes) = false

  unfoldable pub deserialize :
      Hashing T → List (SerializedNode T) → Outcome (Result MerkleError (Merkle T))
  deserialize hashing [] = done (err invalid_structure)
  deserialize hashing snodes = elim (build_nodes [] snodes) [
    | err e ↦ done (err e)
    | ok nodes ↦ do
      (last, others) ← unwrap (pop nodes)
      root ← take_root last
      done (
          if not (all_taken others)
          then err invalid_structure
          else and_then (validate_r hashing root) λ _. ok root)
  ]
