-- ===== src/Merkle/Serial/Roundtrip.antt =====
-- About `deserialize` on what `serialize` returns.
use stegos.Prelude.{
  ℕ, suc, ◌+◌, ◌≡◌, refl, sym, ap, ◌∙◌, true, none, some, List, [], ◌∷◌, ◌++◌, length,
  length-append, get_elem?-append, done, Returns, Returns-step, ok, arith,
}
use mathlib.Core.List.{append_assoc, append-nil}
use stegos.Crypto.{Hash}
use stegos.Merkle.{
  Node, node, Subtree, no_tree, some_tree, Hashing, Merkle, SerializedNode, validate, validate_r,
}
use stegos.Merkle.Valid.{IsValid, validate_r-IsValid}
use stegos.Merkle.Serial.{
  serialize_r, serialize, take_node, restore, build_nodes, pop, all_taken, deserialize,
}

module _ {T : Type 0} where
  -- The nodes under a node, once they have all found their parent.
  abbrev taken : Node T → List (Subtree T)
  taken (node hash (some_tree left) (some_tree right) value) =
      taken left ++ (no_tree ∷ (taken right ++ no_tree ∷ []))
  taken (node hash (some_tree left) no_tree value) = taken left ++ no_tree ∷ []
  taken (node hash no_tree right value) = []

  -- The serialized form of a tree, from the index `n` on.
  unfoldable flat : ℕ → Node T → List (SerializedNode T)
  flat n (node hash (some_tree left) (some_tree right) value) =
      let item : SerializedNode T = record {
        hash = hash;
        left = some (n + length (taken left));
        right = some (n + length (taken left) + suc (length (taken right)));
        value = none;
      } in
      flat n left ++ (flat (n + suc (length (taken left))) right ++ item ∷ [])
  flat n (node hash (some_tree left) no_tree value) =
      let item : SerializedNode T = record {
        hash = hash;
        left = some (n + length (taken left));
        right = none;
        value = none;
      } in
      flat n left ++ item ∷ []
  flat n (node hash no_tree right value) =
      let item : SerializedNode T = record {
        hash = hash;
        left = none;
        right = none;
        value = value;
      } in
      item ∷ []

  length-flat : (n : ℕ) (t : Node T) → length (flat n t) ≡ suc (length (taken t))
  unfolding flat
  length-flat n (node hash (some_tree left) (some_tree right) value) =
      rw
        (
          length-append (flat n left) _,
          length-append (flat (n + suc (length (taken left))) right) _,
          length-flat n left,
          length-flat (n + suc (length (taken left))) right,
          length-append (taken left) (no_tree ∷ (taken right ++ no_tree ∷ [])),
          length-append (taken right) (no_tree ∷ []),
        )
        (omega arith)
  length-flat n (node hash (some_tree left) no_tree value) =
      rw
        (
          length-append (flat n left) _,
          length-flat n left,
          length-append (taken left) (no_tree ∷ []),
        )
        (omega arith)
  length-flat n (node hash no_tree right value) = refl

  take_node-append :
      (i : ℕ) (ns ms : List (Subtree T)) (n : Subtree T)
      → i ≡ length ns
      → take_node (ns ++ n ∷ ms) i ≡ ns ++ no_tree ∷ ms
  take_node-append i [] ms n e = rw e refl
  take_node-append i (m ∷ ns) ms n e = rw e (ap (◌∷◌ m) (take_node-append (length ns) ns ms n refl))

  restore_lem :
      (i : ℕ) (t : Node T) (ns ms : List (Subtree T))
      → i ≡ length ns
      → restore (ns ++ some_tree t ∷ ms) (some i) ≡ ok (some_tree t, ns ++ no_tree ∷ ms)
  unfolding restore
  restore_lem i t ns ms e =
      rw
        (
          restore,
          get_elem?-append i ns ms (some_tree t) e,
          take_node-append i ns ms (some_tree t) e,
        )
        refl

  pop_lem : (n : Subtree T) (ns : List (Subtree T)) → pop (ns ++ n ∷ []) ≡ some (n, ns)
  unfolding pop
  pop_lem n [] = refl
  pop_lem n (m ∷ ns) = rw (pop_lem n ns) refl

  all_taken-append :
      (ms ns : List (Subtree T))
      → all_taken ms ≡ true
      → all_taken ns ≡ true
      → all_taken (ms ++ ns) ≡ true
  all_taken-append [] ns em en = en
  all_taken-append (no_tree ∷ ms) ns em en = all_taken-append ms ns em en
  all_taken-append (some_tree t ∷ ms) ns em en = absurd (ground arith)

  all_taken-taken : (t : Node T) → all_taken (taken t) ≡ true
  all_taken-taken (node hash (some_tree left) (some_tree right) value) =
      all_taken-append (taken left) _ (all_taken-taken left)
        (all_taken-append (taken right) _ (all_taken-taken right) refl)
  all_taken-taken (node hash (some_tree left) no_tree value) =
      all_taken-append (taken left) _ (all_taken-taken left) refl
  all_taken-taken (node hash no_tree right value) = refl

  build_two :
      (hash : Hash) (left right : Node T) (i j : ℕ) (ns ls rs : List (Subtree T))
      (items : List (SerializedNode T))
      → i ≡ length ns + length ls
      → j ≡ length ns + length ls + suc (length rs)
      → build_nodes
          (ns ++ (ls ++ some_tree left ∷ (rs ++ some_tree right ∷ [])))
          (record { hash = hash; left = some i; right = some j; value = none } ∷ items)
        ≡ build_nodes
            (ns
              ++ (ls
                  ++ no_tree ∷ (rs ++ no_tree ∷ [])
                  ++ some_tree (node hash (some_tree left) (some_tree right) none) ∷ []))
            items
  unfolding build_nodes
  build_two hash left right i j ns ls rs items ei ej =
      rw
        (
          sym (append_assoc ns ls (some_tree left ∷ (rs ++ some_tree right ∷ []))),
          restore_lem i left (ns ++ ls) (rs ++ some_tree right ∷ [])
              (ei ∙ sym (length-append ns ls)),
          sym (append_assoc (ns ++ ls) (no_tree ∷ rs) (some_tree right ∷ [])),
          restore_lem j right ((ns ++ ls) ++ no_tree ∷ rs) []
              (omega (arith, ej, length-append (ns ++ ls) (no_tree ∷ rs), length-append ns ls)),
        )
        (simp append_assoc refl)

  build_one :
      (hash : Hash) (left : Node T) (i : ℕ) (ns ls : List (Subtree T))
      (items : List (SerializedNode T))
      → i ≡ length ns + length ls
      → build_nodes
          (ns ++ (ls ++ some_tree left ∷ []))
          (record { hash = hash; left = some i; right = none; value = none } ∷ items)
        ≡ build_nodes
            (ns ++ (ls ++ no_tree ∷ [] ++ some_tree (node hash (some_tree left) no_tree none) ∷ []))
            items
  unfolding build_nodes restore
  build_one hash left i ns ls items ei =
      rw
        (
          sym (append_assoc ns ls (some_tree left ∷ [])),
          restore_lem i left (ns ++ ls) [] (ei ∙ sym (length-append ns ls)),
        )
        (simp append_assoc refl)

module _ {T : Type 0} (hashing : Hashing T) where
  build_flat :
      (t : Node T) (ns : List (Subtree T)) (items : List (SerializedNode T))
      → IsValid hashing t
      → build_nodes ns (flat (length ns) t ++ items)
        ≡ build_nodes (ns ++ (taken t ++ some_tree t ∷ [])) items
  unfolding flat build_nodes restore IsValid
  build_flat (node hash (some_tree left) (some_tree right) none) ns items v =
      let item : SerializedNode T = record {
        hash = hash;
        left = some (length ns + length (taken left));
        right = some (length ns + length (taken left) + suc (length (taken right)));
        value = none;
      } in
      let second : ℕ = length ns + suc (length (taken left)) in
      let nodes : List (Subtree T) = ns ++ (taken left ++ some_tree left ∷ []) in
      let size : length nodes ≡ second = omega (
        arith,
        length-append ns (taken left ++ some_tree left ∷ []),
        length-append (taken left) (some_tree left ∷ []),
      ) in
      let items_assoc : (flat (length ns) left ++ (flat second right ++ item ∷ [])) ++ items
          ≡ flat (length ns) left ++ (flat second right ++ item ∷ items) =
        simp append_assoc refl in
      let nodes_assoc : nodes ++ (taken right ++ some_tree right ∷ [])
          ≡ ns ++ (taken left ++ some_tree left ∷ (taken right ++ some_tree right ∷ [])) =
        simp append_assoc refl in
      let second_built : build_nodes nodes (flat second right ++ item ∷ items)
          ≡ build_nodes (nodes ++ (taken right ++ some_tree right ∷ [])) (item ∷ items) =
        rw (sym size) (build_flat right nodes (item ∷ items) v.1) in
      ap (build_nodes ns) items_assoc
      ∙ build_flat left ns (flat second right ++ item ∷ items) v.0
      ∙ second_built
      ∙ ap (λ ms. build_nodes ms (item ∷ items)) nodes_assoc
      ∙ build_two hash left right _ _ ns (taken left) (taken right) items refl refl
  build_flat (node hash (some_tree left) no_tree none) ns items v =
      let item : SerializedNode T = record {
        hash = hash;
        left = some (length ns + length (taken left));
        right = none;
        value = none;
      } in
      let items_assoc : (flat (length ns) left ++ item ∷ []) ++ items
          ≡ flat (length ns) left ++ item ∷ items =
        simp append_assoc refl in
      ap (build_nodes ns) items_assoc
      ∙ build_flat left ns (item ∷ items) v.0
      ∙ build_one hash left _ ns (taken left) items refl
  build_flat (node hash no_tree no_tree value) ns items v = refl
  build_flat (node hash no_tree (some_tree right) none) ns items v = absurd v
  build_flat (node hash no_tree (some_tree right) (some _)) ns items v = absurd v
  build_flat (node hash (some_tree left) no_tree (some _)) ns items v = absurd v
  build_flat (node hash (some_tree left) (some_tree right) (some _)) ns items v = absurd v

  serialize_r-flat :
      (t : Node T) (r : List (SerializedNode T))
      → IsValid hashing t
      → serialize_r r t ≡ done (r ++ flat (length r) t, length r + length (taken t))
  unfolding flat serialize_r IsValid
  serialize_r-flat (node hash (some_tree left) (some_tree right) none) r v =
      let moved : length r + suc (length (taken left)) + length (taken right)
          ≡ length r + length (taken left) + suc (length (taken right)) =
        omega arith in
      let last : length r + suc (length (taken left)) + suc (length (taken right))
          ≡ length r + (length (taken left) + suc (length (taken right) + 1)) =
        omega arith in
      rw
        (
          serialize_r-flat left r v.0,
          serialize_r-flat right (r ++ flat (length r) left) v.1,
          length-append (r ++ flat (length r) left)
              (flat (length (r ++ flat (length r) left)) right),
          length-append r (flat (length r) left),
          length-flat (length r) left,
          length-flat (length r + suc (length (taken left))) right,
          length-append (taken left) (no_tree ∷ (taken right ++ no_tree ∷ [])),
          length-append (taken right) (no_tree ∷ []),
        )
        (rw (moved, last) (simp append_assoc refl))
  serialize_r-flat (node hash (some_tree left) no_tree none) r v =
      let last : length r + suc (length (taken left)) ≡ length r + (length (taken left) + 1) =
        omega arith in
      rw
        (
          serialize_r-flat left r v.0,
          length-append r (flat (length r) left),
          length-flat (length r) left,
          length-append (taken left) (no_tree ∷ []),
        )
        (rw last (simp append_assoc refl))
  serialize_r-flat (node hash no_tree no_tree value) r v = ground arith
  serialize_r-flat (node hash no_tree (some_tree right) none) r v = absurd v
  serialize_r-flat (node hash no_tree (some_tree right) (some _)) r v = absurd v
  serialize_r-flat (node hash (some_tree left) no_tree (some _)) r v = absurd v
  serialize_r-flat (node hash (some_tree left) (some_tree right) (some _)) r v = absurd v

  deserialize-build_nodes :
      (items : List (SerializedNode T)) (ns : List (Subtree T)) (t : Node T)
      → build_nodes [] items ≡ ok (ns ++ some_tree t ∷ [])
      → all_taken ns ≡ true
      → validate_r hashing t ≡ ok tt
      → deserialize hashing items ≡ done (ok t)
  unfolding build_nodes deserialize
  deserialize-build_nodes [] [] t e taken valid = absurd (ground arith)
  deserialize-build_nodes [] (n ∷ ns) t e taken valid = absurd (ground arith)
  deserialize-build_nodes (item ∷ items) ns t e taken valid =
      rw (e, deserialize, pop_lem (some_tree t) ns, taken, valid) refl

  -- If `validate` accepts a tree, `serialize` returns, with no panic, and `deserialize` returns the
  -- tree from what it returned.
  pub deserialize-serialize :
      (t : Merkle T)
      → validate hashing t ≡ ok tt
      → Returns (serialize t) (λ items. deserialize hashing items ≡ done (ok t))
  unfolding serialize build_nodes
  deserialize-serialize t e =
      let valid : IsValid hashing t = validate_r-IsValid hashing t e in
      let built : build_nodes [] (flat 0 t) ≡ ok (taken t ++ some_tree t ∷ []) =
        rw (append-nil (flat 0 t)) at (build_flat t [] [] valid) in
      Returns-step _ (serialize_r [] t) _ (serialize_r-flat t [] valid)
        (deserialize-build_nodes (flat 0 t) (taken t) t built (all_taken-taken t) e)
