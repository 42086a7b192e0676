-- ===== src/Mempool/Pushed.antt =====
-- About `push_tx` and `pop_micro_block`.
use stegos.Prelude.{
  ◌≡◌, refl, sym, ◌∙◌, true, false, ◌==◌, ◌||◌, ==→≡, ==_refl, Option, none, some, List, [], ◌∷◌,
  ◌++◌, map, if◌then◌else◌, Returns, Returns-bind, Returns-mono, Option-cases, Bool-cases, inl, inr,
  arith,
}
use stegos.Prelude.Order.{nat_ord}
use stegos.BtreeMap.{BtreeMap, lookup, lookup-insert}
use stegos.BtreeMap.Sorted.{lookup-Above}
use stegos.Crypto.{Hash}
use stegos.Transaction.{Transaction, Primitives, txins}
use stegos.Transaction.Validate.{contains}
use stegos.Transaction.Validate.Unique.{Unique}
use stegos.Mempool.{
  Mempool, collect, insert_owned, output_hashes, push_tx, prune_txs, push_all, collect_spent,
  pop_micro_block,
}
use stegos.Mempool.Index.{Fresh, insert_owned_lem}
use stegos.Mempool.Indexes.{Indexes, touches, Indexes-push}
use stegos.Mempool.Pruned.{WellIndexed, collect_lem, Indexes-weaken, prune_txs_lem}

contains-append :
    (h : Hash) (xs ys : List Hash) → contains h (xs ++ ys) ≡ (contains h xs || contains h ys)
contains-append h [] ys = refl
contains-append h (x ∷ xs) ys = ground (arith, contains-append h xs ys)

Unique-append :
    (xs ys : List Hash)
    → Unique (xs ++ ys)
    → Unique xs × Unique ys × ((h : Hash) → contains h xs ≡ true → contains h ys ≡ false)
Unique-append [] ys u = (tt, u, λ h e. ground arith)
Unique-append (x ∷ xs) ys u =
    let (ux, uy, apart) = Unique-append xs ys u.1 in
    (
      (ground (arith, u.0, contains-append x xs ys), ux),
      uy,
      λ h e. ground (arith, apart h, u.0, contains-append x xs ys, ==→≡ h x),
    )

module _ (p : Primitives) where
  -- From a pool with the right indexes, `push_tx` returns if the transaction is new, it has no input or
  -- output twice, and none that a transaction of the pool has.
  pub push_tx_lem :
      (t : Hash) (tx : Transaction) (m : Mempool)
      → WellIndexed p [] m
      → lookup t m.pool ≡ none
      → Unique (txins tx)
      → Unique (output_hashes p tx)
      → Fresh (txins tx) m.inputs
      → Fresh (output_hashes p tx) m.outputs
      → Returns (push_tx p t tx m) (λ r.
        WellIndexed p [] r
        × ((q : Hash) → lookup q r.pool ≡ (if q == t then some tx else lookup q m.pool))
        × ((q : Hash)
            → lookup q r.inputs ≡ (if contains q (txins tx) then some t else lookup q m.inputs))
        × ((q : Hash)
            → lookup q r.outputs
              ≡ (if contains q (output_hashes p tx) then some t else lookup q m.outputs)))
  unfolding push_tx
  push_tx_lem t tx m (ix, ox) absent unique_in unique_out fresh_in fresh_out =
      Returns-bind _ _ (insert_owned t (txins tx) m.inputs) _
        (insert_owned_lem t (txins tx) m.inputs unique_in fresh_in)
        λ inputs i_spec.
          Returns-bind _ _ (insert_owned t (output_hashes p tx) m.outputs) _
            (insert_owned_lem t (output_hashes p tx) m.outputs unique_out fresh_out)
            λ outputs o_spec. rw absent (
              (
                Indexes-push txins t tx m.pool m.inputs inputs ix absent fresh_in i_spec,
                Indexes-push (output_hashes p) t tx m.pool m.outputs outputs ox absent fresh_out
                    o_spec,
              ),
              λ q. ground (arith, lookup-insert t q tx m.pool),
              i_spec,
              o_spec,
            )

  abbrev pub all_txins : List Transaction → List Hash
  all_txins [] = []
  all_txins (tx ∷ txs) = txins tx ++ all_txins txs

  abbrev pub all_outputs : List Transaction → List Hash
  all_outputs [] = []
  all_outputs (tx ∷ txs) = output_hashes p tx ++ all_outputs txs

  -- No transaction, input or output is given twice.
  abbrev pub Apart : List Transaction → Type 0
  Apart txs = Unique (map p.digest_tx txs) × Unique (all_txins txs) × Unique (all_outputs txs)

  -- None of them is in the pool.
  abbrev pub Absent : List Transaction → Mempool → Type 0
  Absent txs m =
      ((t : Hash) → contains t (map p.digest_tx txs) ≡ true → lookup t m.pool ≡ none)
      × Fresh (all_txins txs) m.inputs
      × Fresh (all_outputs txs) m.outputs

  -- The transaction with the digest, or else what the pool has.
  abbrev pub find_tx : Hash → List Transaction → Option Transaction → Option Transaction
  find_tx t [] otherwise = otherwise
  find_tx t (tx ∷ txs) otherwise = if t == p.digest_tx tx then some tx else find_tx t txs otherwise

  find_tx-absent :
      (t : Hash) (txs : List Transaction) (o : Option Transaction)
      → contains t (map p.digest_tx txs) ≡ false
      → find_tx t txs o ≡ o
  find_tx-absent t [] o e = refl
  find_tx-absent t (tx ∷ txs) o e = ground (arith, find_tx-absent t txs o)

  push_all_lem :
      (txs : List Transaction) (m : Mempool)
      → WellIndexed p [] m
      → Apart txs
      → Absent txs m
      → Returns (push_all p txs m) (λ r.
        WellIndexed p [] r × ((t : Hash) → lookup t r.pool ≡ find_tx t txs (lookup t m.pool)))
  unfolding push_all
  push_all_lem [] m wi apart absent = (wi, λ t. refl)
  push_all_lem (tx ∷ txs) m wi (ut, ui, uo) (at, ai, ao) =
      let (ui1, ui2, di) = Unique-append (txins tx) (all_txins txs) ui in
      let (uo1, uo2, do_) = Unique-append (output_hashes p tx) (all_outputs txs) uo in
      Returns-bind _ _ (push_tx p (p.digest_tx tx) tx m) _
        (push_tx_lem (p.digest_tx tx) tx m wi
          (at (p.digest_tx tx) (ground (arith, ==_refl (p.digest_tx tx)))) ui1 uo1
          (λ h e. ai h (ground (arith, contains-append h (txins tx) (all_txins txs))))
          (λ h e. ao h (ground (arith, contains-append h (output_hashes p tx) (all_outputs txs)))))
        λ next (wi2, pool, ins, outs).
          Returns-mono _ _ (push_all p txs next)
            (push_all_lem txs next wi2 (ut.1, ui2, uo2)
              (
                λ t e. ground (arith, pool t, at t, ut.0, ==→≡ t (p.digest_tx tx)),
                λ h e.
                    ground (arith, ins h, ai h, di h, contains-append h (txins tx) (all_txins txs)),
                λ h e. ground (
                  arith,
                  outs h,
                  ao h,
                  do_ h,
                  contains-append h (output_hashes p tx) (all_outputs txs),
                ),
              ))
            λ r (wi3, found). (
              wi3,
              λ t. elim (Bool-cases (t == p.digest_tx tx)) [
                | inl e ↦ ground (
                  arith,
                  found t,
                  pool t,
                  e,
                  ut.0,
                  ==→≡ t (p.digest_tx tx),
                  find_tx-absent t txs (lookup t next.pool),
                )
                | inr e ↦ ground (arith, found t, pool t, e)
              ],
            )

  collect-append :
      (hs ks : List Hash) (index : BtreeMap Hash Hash) (ts : List Hash)
      → collect (hs ++ ks) index ts ≡ collect ks (collect hs index ts).0 (collect hs index ts).1
  unfolding collect
  collect-append [] ks index ts = refl
  collect-append (h ∷ hs) ks index ts = elim (Option-cases (lookup h index)) [
    | inl e ↦ rw (e, collect) (collect-append hs ks index ts)
    | inr (s, e) ↦ rw (e, collect) (collect-append hs ks _ _)
  ]

  collect_spent_lem :
      (txs : List Transaction) (index : BtreeMap Hash Hash) (ts : List Hash)
      → collect_spent p txs index ts ≡ collect (all_outputs txs) index ts
  unfolding collect_spent collect
  collect_spent_lem [] index ts = refl
  collect_spent_lem (tx ∷ txs) index ts =
      collect_spent_lem txs _ _
      ∙ sym (collect-append (output_hashes p tx) (all_outputs txs) index ts)

  -- A smaller pool has no new hashes.
  Fresh-smaller :
      (keys : Transaction → List Hash) (hs : List Hash) (small pool : BtreeMap Hash Transaction)
      (index old : BtreeMap Hash Hash)
      → Indexes keys [] small index
      → Indexes keys [] pool old
      → ((t : Hash) (tx : Transaction) → lookup t small ≡ some tx → lookup t pool ≡ some tx)
      → Fresh hs old
      → Fresh hs index
  Fresh-smaller keys hs small pool index old ix ox part fresh h e =
      elim (Option-cases (lookup h index)) [
        | inl absent ↦ absent
        | inr (t, present) ↦
            let (tx, in_small, has) = ix.owner h t present in
            ground (arith, fresh h e, ox.entry t tx h (part t tx in_small) has refl)
      ]

  -- What is left of a transaction once these outputs are gone.
  abbrev pub unspent_tx : List Hash → Option Transaction → Option Transaction
  unspent_tx hs none = none
  unspent_tx hs (some tx) = if touches hs (txins tx) then none else some tx

  -- From a pool with the right indexes, for reverted transactions of which none is in the pool, and no
  -- input or output is given twice or has been claimed in the pool, `pop_micro_block` returns. Just the
  -- transactions that spend an output of a reverted one leave the pool, the reverted ones enter it, and
  -- the indexes are right again.
  pub pop_micro_block_lem :
      (txs : List Transaction) (m : Mempool)
      → WellIndexed p [] m
      → Apart txs
      → Absent txs m
      → Returns (pop_micro_block p txs m) (λ r.
        WellIndexed p [] r
        × ((t : Hash)
            → lookup t r.pool ≡ find_tx t txs (unspent_tx (all_outputs txs) (lookup t m.pool))))
  unfolding pop_micro_block
  pop_micro_block_lem txs m (ix, ox) apart (at, ai, ao) =
      let (ix1, unique, all, _, exact) =
        collect_lem txins (all_outputs txs) m.inputs [] m.pool ix tt tt in
      let (inputs, ts) = collect (all_outputs txs) m.inputs [] in
      let rest : Mempool = record { pool = m.pool; inputs = inputs; outputs = m.outputs } in
      rw (collect_spent_lem txs m.inputs []) (
        Returns-bind _ _ (prune_txs p ts rest []) _
          (prune_txs_lem p ts rest []
            (
              ix1,
              Indexes-weaken (output_hashes p) [] ts m.pool m.outputs ox
                  λ t e. absurd (ground arith),
            )
            unique all tt λ t e. lookup-Above t [] tt)
          λ (_, left) ((ix2, ox2), _, kept, _).
            let part : (t : Hash) (tx : Transaction)
                → lookup t left.pool ≡ some tx
                → lookup t m.pool ≡ some tx =
              λ t tx e. ground (arith, kept t) in
            Returns-mono _ _ (push_all p txs left)
              (push_all_lem txs left (ix2, ox2) apart
                (
                  λ t e. ground (arith, kept t, at t),
                  Fresh-smaller txins (all_txins txs) left.pool m.pool left.inputs m.inputs ix2 ix
                      part ai,
                  Fresh-smaller (output_hashes p) (all_outputs txs) left.pool m.pool left.outputs
                      m.outputs ox2 ox part ao,
                ))
              λ r (wi, found). (
                wi,
                λ t. elim (Option-cases (lookup t m.pool)) [
                  | inl e ↦
                      let gone : lookup t left.pool ≡ none = ground (arith, kept t) in
                      rw (found t, gone, e) refl
                  | inr (tx, e) ↦
                      let stays : lookup t left.pool ≡ unspent_tx (all_outputs txs) (some tx) =
                        ground (arith, kept t, e, exact t tx e) in
                      rw (found t, stays, e) refl
                ],
              ))
