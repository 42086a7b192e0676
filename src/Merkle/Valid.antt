-- ===== src/Merkle/Valid.antt =====
-- The trees that `validate` accepts.
use stegos.Prelude.{◌≡◌, refl, ==→≡, ==_refl, none, some, Result, ok, err, arith}
use stegos.Crypto.{Hash}
use stegos.Merkle.{
  Node, node, no_tree, some_tree, Hashing, and_then, roothash, validate_r, check_equal,
}

check_equal-ok : (h k : Hash) → check_equal h k ≡ ok tt → h ≡ k
check_equal-ok h k e = ground (arith, ==→≡ h k)

check_equal_refl : (h k : Hash) → h ≡ k → check_equal h k ≡ ok tt
check_equal_refl h k e = rw (e, ==_refl k) refl

and_then-ok :
    {E A B : Type 0} (m : Result E A) (f : A → Result E B) {b : B}
    → and_then m f ≡ ok b
    → (a : A) × (m ≡ ok a) × (f a ≡ ok b)
and_then-ok (ok a) f e = (a, refl, e)
and_then-ok (err x) f e = absurd (ground arith)

module _ {T : Type 0} (hashing : Hashing T) where
  -- Each hash of the tree is the one of what is under it.
  unfoldable pub IsValid : Node T → Type 0
  IsValid (node hash (some_tree left) (some_tree right) none) =
      IsValid left × IsValid right × (hash ≡ hashing.inner (roothash left) (roothash right))
  IsValid (node hash (some_tree left) no_tree none) =
      IsValid left × (hash ≡ hashing.inner (roothash left) (roothash left))
  IsValid (node hash no_tree no_tree (some value)) = hash ≡ hashing.leaf value
  IsValid (node hash no_tree no_tree none) = Unit
  IsValid _ = ⊥

  pub validate_r-IsValid : (t : Node T) → validate_r hashing t ≡ ok tt → IsValid t
  unfolding validate_r IsValid
  validate_r-IsValid (node hash (some_tree left) (some_tree right) none) e =
      let (_, el, e) = and_then-ok (validate_r hashing left) _ e in
      let (_, er, e) = and_then-ok (validate_r hashing right) _ e in
      (
        validate_r-IsValid left el,
        validate_r-IsValid right er,
        check_equal-ok hash (hashing.inner (roothash left) (roothash right)) e,
      )
  validate_r-IsValid (node hash (some_tree left) no_tree none) e =
      let (_, el, e) = and_then-ok (validate_r hashing left) _ e in
      (
        validate_r-IsValid left el,
        check_equal-ok hash (hashing.inner (roothash left) (roothash left)) e,
      )
  validate_r-IsValid (node hash no_tree no_tree (some value)) e =
      check_equal-ok hash (hashing.leaf value) e
  validate_r-IsValid (node hash no_tree no_tree none) e = tt
  validate_r-IsValid (node hash no_tree (some_tree right) none) e = ground arith
  validate_r-IsValid (node hash no_tree (some_tree right) (some _)) e = ground arith
  validate_r-IsValid (node hash (some_tree left) right (some _)) e = ground arith

  pub IsValid-validate_r : (t : Node T) → IsValid t → validate_r hashing t ≡ ok tt
  unfolding validate_r IsValid
  IsValid-validate_r (node hash (some_tree left) (some_tree right) none) v =
      rw
        (
          IsValid-validate_r left v.0,
          IsValid-validate_r right v.1,
          check_equal_refl hash (hashing.inner (roothash left) (roothash right)) v.2,
        )
        refl
  IsValid-validate_r (node hash (some_tree left) no_tree none) v =
      rw
        (
          IsValid-validate_r left v.0,
          check_equal_refl hash (hashing.inner (roothash left) (roothash left)) v.1,
        )
        refl
  IsValid-validate_r (node hash no_tree no_tree (some value)) v =
      check_equal_refl hash (hashing.leaf value) v
  IsValid-validate_r (node hash no_tree no_tree none) v = refl
  IsValid-validate_r (node hash no_tree (some_tree right) none) v = absurd v
  IsValid-validate_r (node hash no_tree (some_tree right) (some _)) v = absurd v
  IsValid-validate_r (node hash (some_tree left) no_tree (some _)) v = absurd v
  IsValid-validate_r (node hash (some_tree left) (some_tree right) (some _)) v = absurd v
