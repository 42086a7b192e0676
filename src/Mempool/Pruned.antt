-- ===== src/Mempool/Pruned.antt =====
-- About `prune`.
use stegos.Prelude.{
  ◌≡◌, refl, Bool, true, false, ◌||◌, ==→≡, ==_refl, Option, none, some, List, [], ◌∷◌,
  if◌then◌else◌, Returns, Returns-bind, Returns-mono, Option-cases, Bool-cases, inl, inr, arith,
}
use stegos.Prelude.Order.{nat_ord}
use stegos.BtreeMap.{BtreeMap, lookup, insert, remove, lookup-insert, lookup-remove}
use stegos.BtreeMap.Sorted.{Sorted, insert-Sorted, lookup-Above}
use stegos.Crypto.{Hash}
use stegos.Transaction.{Transaction, Primitives, txins}
use stegos.Transaction.Validate.{contains}
use stegos.Transaction.Validate.Unique.{Unique}
use stegos.Mempool.{
  Mempool, insert_hash, collect, remove_owned, output_hashes, prune_txs, add_statuses, is_full,
  prune,
}
use stegos.Mempool.Index.{insert_hash-contains, insert_hash-Unique, remove_owned_lem}
use stegos.Mempool.Indexes.{Indexes, AllIn, touches, Indexes-OwnedBy, Indexes-remove}

contains-AllIn :
    (t : Hash) (ts : List Hash) (pool : BtreeMap Hash Transaction)
    → AllIn pool ts
    → AllIn pool (t ∷ ts)
    → AllIn pool (insert_hash t ts)
contains-AllIn t ts pool old new = elim (Bool-cases (contains t ts)) [
  | inl e ↦ rw e old
  | inr e ↦ rw e new
]

AllIn-remove :
    (t : Hash) (ts : List Hash) (pool : BtreeMap Hash Transaction)
    → contains t ts ≡ false
    → AllIn pool ts
    → AllIn (remove t pool) ts
AllIn-remove t [] pool e all = tt
AllIn-remove t (s ∷ ts) pool e ((sx, in_pool), all) = (
  (sx, ground (arith, lookup-remove t s pool, ==→≡ s t, ==_refl s)),
  AllIn-remove t ts pool (ground arith) all,
)

module _ (keys : Transaction → List Hash) where
  Indexes-collected :
      (h s : Hash) (pending : List Hash) (pool : BtreeMap Hash Transaction)
      (index : BtreeMap Hash Hash)
      → Indexes keys pending pool index
      → lookup h index ≡ some s
      → Indexes keys (insert_hash s pending) pool (remove h index)
  Indexes-collected h s pending pool index ix e = record {
    owner = λ q t f. ix.owner q t (ground (arith, lookup-remove h q index));
    entry = λ t tx q in_pool has out. ground (
      arith,
      insert_hash-contains t s pending,
      lookup-remove h q index,
      ix.entry t tx q in_pool has,
      ==→≡ q h,
      ==_refl t,
    );
    single = ix.single;
  }

  pub collect_lem :
      (hs : List Hash) (index : BtreeMap Hash Hash) (pending : List Hash)
      (pool : BtreeMap Hash Transaction)
      → Indexes keys pending pool index
      → Unique pending
      → AllIn pool pending
      → Indexes keys (collect hs index pending).1 pool (collect hs index pending).0
        × Unique (collect hs index pending).1
        × AllIn pool (collect hs index pending).1
        × ((t : Hash) → contains t pending ≡ true → contains t (collect hs index pending).1 ≡ true)
        × ((t : Hash) (tx : Transaction)
            → lookup t pool ≡ some tx
            → contains t (collect hs index pending).1
              ≡ (contains t pending || touches hs (keys tx)))
  unfolding collect
  collect_lem [] index pending pool ix unique all =
      (ix, unique, all, λ t e. e, λ t tx e. ground arith)
  collect_lem (h ∷ hs) index pending pool ix unique all = elim (Option-cases (lookup h index)) [
    | inl absent ↦
        let (ix2, unique2, all2, kept, exact) = collect_lem hs index pending pool ix unique all in
        rw (absent, collect)
          (ix2, unique2, all2, kept, λ t tx e. ground (arith, exact t tx e, ix.entry t tx h e))
    | inr (s, present) ↦
        let (sx, in_pool, has) = ix.owner h s present in
        let (ix2, unique2, all2, kept, exact) =
          collect_lem hs (remove h index) (insert_hash s pending) pool
            (Indexes-collected h s pending pool index ix present)
            (insert_hash-Unique s pending unique)
            (contains-AllIn s pending pool all ((sx, in_pool), all)) in
        rw (present, collect)
          (
            ix2,
            unique2,
            all2,
            λ t e. kept t (ground (arith, insert_hash-contains t s pending)),
            λ t tx e. ground (
              arith,
              exact t tx e,
              insert_hash-contains t s pending,
              ix.entry t tx h e,
              ==→≡ t s,
              ==_refl t,
            ),
          )
  ]

  pub Indexes-weaken :
      (some_pending pending : List Hash) (pool : BtreeMap Hash Transaction)
      (index : BtreeMap Hash Hash)
      → Indexes keys some_pending pool index
      → ((t : Hash) → contains t some_pending ≡ true → contains t pending ≡ true)
      → Indexes keys pending pool index
  Indexes-weaken some_pending pending pool index ix more = record {
    owner = ix.owner;
    entry = λ t tx q in_pool has out. ix.entry t tx q in_pool has (ground (arith, more t));
    single = ix.single;
  }

module _ (p : Primitives) where
  -- Both indexes of a pool.
  abbrev pub WellIndexed : List Hash → Mempool → Type 0
  WellIndexed pending m =
      Indexes txins pending m.pool m.inputs × Indexes (output_hashes p) pending m.pool m.outputs

  pub prune_txs_lem :
      (ts : List Hash) (m : Mempool) (txs : BtreeMap Hash Transaction)
      → WellIndexed ts m
      → Unique ts
      → AllIn m.pool ts
      → Sorted txs
      → ((t : Hash) → contains t ts ≡ true → lookup t txs ≡ none)
      → Returns (prune_txs p ts m txs) (λ (pruned, rest).
        WellIndexed [] rest
        × Sorted pruned
        × ((t : Hash) → lookup t rest.pool ≡ (if contains t ts then none else lookup t m.pool))
        × ((t : Hash)
            → lookup t pruned ≡ (if contains t ts then lookup t m.pool else lookup t txs)))
  unfolding prune_txs
  prune_txs_lem [] m txs ix unique all sorted fresh = (ix, sorted, λ t. refl, λ t. refl)
  prune_txs_lem (t ∷ ts) m txs (ix, ox) unique ((tx, in_pool), all) sorted fresh = rw in_pool (
      Returns-bind _ _ (remove_owned t (txins tx) m.inputs) _
        (remove_owned_lem t (txins tx) m.inputs
          (Indexes-OwnedBy txins t tx (t ∷ ts) m.pool m.inputs ix in_pool))
        λ inputs i_spec.
          Returns-bind _ _ (remove_owned t (output_hashes p tx) m.outputs) _
            (remove_owned_lem t (output_hashes p tx) m.outputs
              (Indexes-OwnedBy (output_hashes p) t tx (t ∷ ts) m.pool m.outputs ox in_pool))
            λ outputs o_spec.
              let rest : Mempool = record {
                pool = remove t m.pool;
                inputs = inputs;
                outputs = outputs;
              } in
              rw (fresh t (ground (arith, ==_refl t))) (
                Returns-mono _ _ (prune_txs p ts rest (insert t tx txs))
                  (prune_txs_lem ts rest (insert t tx txs)
                    (
                      Indexes-remove txins t tx ts m.pool m.inputs inputs ix in_pool i_spec,
                      Indexes-remove (output_hashes p) t tx ts m.pool m.outputs outputs ox in_pool
                          o_spec,
                    )
                    unique.1 (AllIn-remove t ts m.pool unique.0 all) (insert-Sorted t tx txs sorted)
                    λ s in_ts.
                      ground (arith, lookup-insert t s tx txs, fresh s, unique.0, ==→≡ s t))
                  λ (pruned, left) (wi, so, kept, gone). (
                    wi,
                    so,
                    λ s. ground (arith, kept s, lookup-remove t s m.pool),
                    λ s. ground (
                      arith,
                      gone s,
                      lookup-remove t s m.pool,
                      lookup-insert t s tx txs,
                      unique.0,
                      ==→≡ s t,
                      in_pool,
                    ),
                  )))

  -- What `prune` tells of a transaction.
  abbrev pub status :
      List Hash
      → List Hash
      → Option Transaction
      → Option (Transaction × Bool)
      → Option (Transaction × Bool)
  status ins outs none otherwise = otherwise
  status ins outs (some tx) otherwise = some (tx, is_full p ins outs tx)

  add_statuses_lem :
      (ins outs : List Hash) (txs : BtreeMap Hash Transaction)
      (statuses : BtreeMap Hash (Transaction × Bool))
      → Sorted txs
      → ((t : Hash) (tx : Transaction) → lookup t txs ≡ some tx → lookup t statuses ≡ none)
      → Returns
          (add_statuses p ins outs txs statuses)
          (λ r. (t : Hash) → lookup t r ≡ status ins outs (lookup t txs) (lookup t statuses))
  unfolding add_statuses lookup
  add_statuses_lem ins outs [] statuses sorted fresh = λ t. refl
  add_statuses_lem ins outs ((h, tx) ∷ txs) statuses (above, sorted) fresh =
      let next = insert h (tx, is_full p ins outs tx) statuses in
      rw (fresh h tx (ground (arith, ==_refl h))) (
        Returns-mono _ _ (add_statuses p ins outs txs next)
          (add_statuses_lem ins outs txs next sorted λ t sx e. ground (
            arith,
            fresh t sx,
            lookup-insert h t (tx, is_full p ins outs tx) statuses,
            lookup-Above h txs above,
            ==→≡ t h,
          ))
          λ r found t. ground (
            arith,
            found t,
            lookup-insert h t (tx, is_full p ins outs tx) statuses,
            lookup-Above h txs above,
            ==→≡ t h,
          ))

  -- Whether one of the hashes is an input or an output of the transaction.
  abbrev pub is_touched : List Hash → List Hash → Transaction → Bool
  is_touched ins outs tx = touches ins (txins tx) || touches outs (output_hashes p tx)

  abbrev pub kept_tx : List Hash → List Hash → Option Transaction → Option Transaction
  kept_tx ins outs none = none
  kept_tx ins outs (some tx) = if is_touched ins outs tx then none else some tx

  abbrev pub pruned_tx : List Hash → List Hash → Option Transaction → Option (Transaction × Bool)
  pruned_tx ins outs none = none
  pruned_tx ins outs (some tx) =
      if is_touched ins outs tx then some (tx, is_full p ins outs tx) else none

  -- From a pool with the right indexes, `prune` returns, with no panic. The transactions with one of
  -- the inputs or outputs leave the pool, and no others; each is returned, with whether all its inputs
  -- and outputs were given; the indexes are right again.
  pub prune_lem :
      (ins outs : List Hash) (m : Mempool)
      → WellIndexed [] m
      → Returns (prune p ins outs m) (λ (statuses, rest).
        WellIndexed [] rest
        × ((t : Hash) → lookup t rest.pool ≡ kept_tx ins outs (lookup t m.pool))
        × ((t : Hash) → lookup t statuses ≡ pruned_tx ins outs (lookup t m.pool)))
  unfolding prune
  prune_lem ins outs m (ix, ox) =
      let (inputs, by_inputs) = collect ins m.inputs [] in
      let (outputs, ts) = collect outs m.outputs by_inputs in
      let (ix1, unique1, all1, _, exact1) = collect_lem txins ins m.inputs [] m.pool ix tt tt in
      let (ox2, unique2, all2, more2, exact2) =
        collect_lem (output_hashes p) outs m.outputs by_inputs m.pool
          (Indexes-weaken (output_hashes p) [] by_inputs m.pool m.outputs ox
            λ t e. absurd (ground arith))
          unique1 all1 in
      let rest : Mempool = record { pool = m.pool; inputs = inputs; outputs = outputs } in
      Returns-bind _ _ (prune_txs p ts rest []) _
        (prune_txs_lem ts rest [] (Indexes-weaken txins by_inputs ts m.pool inputs ix1 more2, ox2)
          unique2 all2 tt λ t e. lookup-Above t [] tt)
        λ (txs, left) (wi, sorted, kept, gone).
          Returns-bind _ _ (add_statuses p ins outs txs []) _
            (add_statuses_lem ins outs txs [] sorted λ t tx e. lookup-Above t [] tt)
            λ statuses found. (
              wi,
              λ t. elim (Option-cases (lookup t m.pool)) [
                | inl e ↦ ground (arith, kept t, e)
                | inr (tx, e) ↦ ground (arith, kept t, e, exact1 t tx e, exact2 t tx e)
              ],
              λ t. elim (Option-cases (lookup t m.pool)) [
                | inl e ↦ ground (
                  arith,
                  found t,
                  gone t,
                  lookup-Above {V = Transaction × Bool} t [] tt,
                  lookup-Above {V = Transaction} t [] tt,
                  e,
                )
                | inr (tx, e) ↦ ground (
                  arith,
                  found t,
                  gone t,
                  lookup-Above {V = Transaction × Bool} t [] tt,
                  lookup-Above {V = Transaction} t [] tt,
                  e,
                  exact1 t tx e,
                  exact2 t tx e,
                )
              ],
            )
