-- ===== src/Mempool/Indexes.antt =====
-- The pool and an index of it, between and within the calls.
use stegos.Prelude.{
  ◌≡◌, Bool, true, false, ◌||◌, ==→≡, ==_refl, none, some, List, [], ◌∷◌, if◌then◌else◌, Bool-cases,
  inl, inr, arith,
}
use stegos.Prelude.Order.{nat_ord}
use stegos.BtreeMap.{BtreeMap, lookup, insert, remove, lookup-insert, lookup-remove}
use stegos.Crypto.{Hash}
use stegos.Transaction.{Transaction}
use stegos.Transaction.Validate.{contains}
use stegos.Mempool.Index.{Fresh, OwnedBy}

-- `index` has the hashes of each transaction of the pool, with the transaction as the owner; those of
-- a transaction in `pending` may be missing. No hash belongs to two transactions.
pub record Indexes (keys : Transaction → List Hash) (pending : List Hash)
    (pool : BtreeMap Hash Transaction) (index : BtreeMap Hash Hash) : Type 0 where
  pub owner :
      (h t : Hash)
      → lookup h index ≡ some t
      → (tx : Transaction) × (lookup t pool ≡ some tx) × (contains h (keys tx) ≡ true)
  pub entry :
      (t : Hash) (tx : Transaction) (h : Hash)
      → lookup t pool ≡ some tx
      → contains h (keys tx) ≡ true
      → contains t pending ≡ false
      → lookup h index ≡ some t
  pub single :
      (s t : Hash) (sx tx : Transaction) (h : Hash)
      → lookup s pool ≡ some sx
      → lookup t pool ≡ some tx
      → contains h (keys sx) ≡ true
      → contains h (keys tx) ≡ true
      → s ≡ t

-- The hashes of the list are transactions of the pool.
abbrev pub AllIn : BtreeMap Hash Transaction → List Hash → Type 0
AllIn pool [] = Unit
AllIn pool (t ∷ ts) = ((tx : Transaction) × (lookup t pool ≡ some tx)) × AllIn pool ts

-- Whether one of the hashes belongs to the transaction.
abbrev pub touches : List Hash → List Hash → Bool
touches [] ks = false
touches (h ∷ hs) ks = contains h ks || touches hs ks

module _ (keys : Transaction → List Hash) where
  pub Indexes-push :
      (t : Hash) (tx : Transaction) (pool : BtreeMap Hash Transaction)
      (index r : BtreeMap Hash Hash)
      → Indexes keys [] pool index
      → lookup t pool ≡ none
      → Fresh (keys tx) index
      → ((q : Hash) → lookup q r ≡ (if contains q (keys tx) then some t else lookup q index))
      → Indexes keys [] (insert t tx pool) r
  Indexes-push t tx pool index r ix absent fresh spec = record {
    owner = λ h s e. elim (Bool-cases (contains h (keys tx))) [
      | inl has ↦ (tx, ground (arith, spec h, lookup-insert t s tx pool, ==_refl t), has)
      | inr hasnt ↦
          let (sx, es, hs) = ix.owner h s (ground (arith, spec h)) in
          (sx, ground (arith, lookup-insert t s tx pool, ==→≡ s t), hs)
    ];
    entry = λ s sx h in_pool has out.
        ground (arith, lookup-insert t s tx pool, spec h, fresh h, ix.entry s sx h, ==→≡ s t);
    single = λ s u sx ux h es eu hs hu. ground (
      arith,
      lookup-insert t s tx pool,
      lookup-insert t u tx pool,
      ix.entry s sx h,
      ix.entry u ux h,
      ix.single s u sx ux h,
      fresh h,
      ==→≡ s t,
      ==→≡ u t,
    );
  }

  pub Indexes-OwnedBy :
      (t : Hash) (tx : Transaction) (pending : List Hash) (pool : BtreeMap Hash Transaction)
      (index : BtreeMap Hash Hash)
      → Indexes keys pending pool index
      → lookup t pool ≡ some tx
      → OwnedBy t (keys tx) index
  Indexes-OwnedBy t tx pending pool index ix in_pool h s has e =
      let (sx, es, hs) = ix.owner h s e in ix.single s t sx tx h es in_pool hs has

  pub Indexes-remove :
      (t : Hash) (tx : Transaction) (pending : List Hash) (pool : BtreeMap Hash Transaction)
      (index r : BtreeMap Hash Hash)
      → Indexes keys (t ∷ pending) pool index
      → lookup t pool ≡ some tx
      → ((q : Hash) → lookup q r ≡ (if contains q (keys tx) then none else lookup q index))
      → Indexes keys pending (remove t pool) r
  Indexes-remove t tx pending pool index r ix in_pool spec = record {
    owner = λ h s e.
        let absent : contains h (keys tx) ≡ false = ground (arith, spec h) in
        let (sx, es, hs) = ix.owner h s (ground (arith, spec h)) in
        (sx, ground (arith, lookup-remove t s pool, ==→≡ s t), hs);
    entry = λ s sx h es has out.
        ground
          (arith, lookup-remove t s pool, spec h, ix.entry s sx h, ix.single s t sx tx h, ==→≡ s t);
    single = λ s u sx ux h es eu hs hu.
        ix.single s u sx ux h (ground (arith, lookup-remove t s pool))
          (ground (arith, lookup-remove t u pool)) hs hu;
  }
