-- ===== src/Mempool/Index.antt =====
-- About the maps that index the transactions of a pool.
use stegos.Prelude.{
  ◌≡◌, refl, true, ◌==◌, ◌||◌, ==→≡, ==_refl, none, some, List, [], ◌∷◌, if◌then◌else◌, Returns,
  Returns-mono, Option-cases, Bool-cases, inl, inr, arith,
}
use stegos.Prelude.Order.{nat_ord, eq?}
use stegos.BtreeMap.{BtreeMap, lookup, insert, remove, lookup-insert, lookup-remove}
use stegos.Crypto.{Hash}
use stegos.Transaction.Validate.{contains}
use stegos.Transaction.Validate.Unique.{Unique}
use stegos.Mempool.{insert_owned, remove_owned, insert_hash}

pub eq?-== : (a b : Hash) → eq? a b ≡ (a == b)
eq?-== a b = ground arith

-- No hash of the list is a key of the index.
abbrev pub Fresh : List Hash → BtreeMap Hash Hash → Type 0
Fresh hs index = (h : Hash) → contains h hs ≡ true → lookup h index ≡ none

pub insert_owned_lem :
    (t : Hash) (hs : List Hash) (index : BtreeMap Hash Hash)
    → Unique hs
    → Fresh hs index
    → Returns
        (insert_owned t hs index)
        (λ r. (q : Hash) → lookup q r ≡ (if contains q hs then some t else lookup q index))
unfolding insert_owned
insert_owned_lem t [] index unique fresh = λ q. refl
insert_owned_lem t (h ∷ hs) index unique fresh = rw (fresh h (ground (arith, ==_refl h))) (
    Returns-mono _ _ (insert_owned t hs (insert h t index))
      (insert_owned_lem t hs (insert h t index) unique.1
        λ q in_hs. ground (arith, lookup-insert h q t index, fresh q, unique.0, ==→≡ q h))
      λ r found q. ground (arith, found q, lookup-insert h q t index))

-- Every hash of the list that is a key belongs to the transaction.
abbrev pub OwnedBy : Hash → List Hash → BtreeMap Hash Hash → Type 0
OwnedBy t hs index = (h s : Hash) → contains h hs ≡ true → lookup h index ≡ some s → s ≡ t

pub remove_owned_lem :
    (t : Hash) (hs : List Hash) (index : BtreeMap Hash Hash)
    → OwnedBy t hs index
    → Returns
        (remove_owned t hs index)
        (λ r. (q : Hash) → lookup q r ≡ (if contains q hs then none else lookup q index))
unfolding remove_owned
remove_owned_lem t [] index owned = λ q. refl
remove_owned_lem t (h ∷ hs) index owned = elim (Option-cases (lookup h index)) [
  | inl absent ↦
      rw (absent, remove_owned)
        (Returns-mono _ _ (remove_owned t hs index)
          (remove_owned_lem t hs index λ q s in_hs. owned q s (ground (arith, in_hs)))
          λ r found q. ground (arith, found q, absent, ==→≡ q h))
  | inr (s, present) ↦
      rw (present, remove_owned, owned h s (ground (arith, ==_refl h)) present, ==_refl t)
        (Returns-mono _ _ (remove_owned t hs (remove h index))
          (remove_owned_lem t hs (remove h index) λ q s in_hs e.
            owned q s (ground (arith, in_hs)) (ground (arith, lookup-remove h q index, e)))
          λ r found q. ground (arith, found q, lookup-remove h q index))
]

pub insert_hash-contains :
    (q h : Hash) (hs : List Hash) → contains q (insert_hash h hs) ≡ ((q == h) || contains q hs)
insert_hash-contains q h hs = ground (arith, ==→≡ q h)

pub insert_hash-Unique : (h : Hash) (hs : List Hash) → Unique hs → Unique (insert_hash h hs)
insert_hash-Unique h hs unique = elim (Bool-cases (contains h hs)) [
  | inl e ↦ rw e unique
  | inr e ↦ rw e (e, unique)
]
