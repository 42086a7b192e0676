-- ===== src/Transaction/Validate/Unique.antt =====
-- About the sets of hashes that the validation of a transaction keeps.
use stegos.Prelude.{◌≡◌, true, false, ==→≡, List, [], ◌∷◌, arith}
use stegos.Crypto.{Hash}
use stegos.Transaction.Validate.{contains}

-- No hash of the list stands in it twice.
abbrev pub Unique : List Hash → Type 0
Unique [] = Unit
Unique (h ∷ hs) = (contains h hs ≡ false) × Unique hs

-- As a loop finds it that has seen other hashes before.
abbrev pub UniqueAfter : List Hash → List Hash → Type 0
UniqueAfter seen [] = Unit
UniqueAfter seen (h ∷ hs) = (contains h seen ≡ false) × UniqueAfter (h ∷ seen) hs

contains-UniqueAfter :
    (k : Hash) (seen hs : List Hash)
    → UniqueAfter seen hs
    → contains k seen ≡ true
    → contains k hs ≡ false
contains-UniqueAfter k seen [] u e = ground arith
contains-UniqueAfter k seen (h ∷ hs) u e =
    ground (arith, u.0, ==→≡ k h, contains-UniqueAfter k (h ∷ seen) hs u.1)

pub UniqueAfter-Unique : (seen hs : List Hash) → UniqueAfter seen hs → Unique hs
UniqueAfter-Unique seen [] u = tt
UniqueAfter-Unique seen (h ∷ hs) u =
    (contains-UniqueAfter h (h ∷ seen) hs u.1 (ground arith), UniqueAfter-Unique (h ∷ seen) hs u.1)
