-- ===== src/Mempool.antt =====
-- node/src/mempool.rs: the memory pool of transactions.
pub mod Index
pub mod Indexes
pub mod Pruned
pub mod Pushed
pub mod External
pub mod Block
use stegos.Prelude.{
  ℕ, ◌+◌, ◌≡◌, Bool, true, false, not, ◌==◌, ◌&&◌, Option, none, some, List, [], ◌∷◌, map,
  if◌then◌else◌, Outcome, done, ◌>>=◌, ◌>>◌, assert, unwrap,
}
use stegos.Prelude.Order.{nat_ord}
use stegos.BtreeMap.{BtreeMap, lookup, insert, remove, contains_key}
use stegos.Crypto.{Hash}
use stegos.Transaction.{Transaction, Primitives, txins, txouts}
use stegos.Transaction.Validate.{contains}

pub record Mempool : Type 0 where
  pub pool : BtreeMap Hash Transaction
  pub inputs : BtreeMap Hash Hash
  pub outputs : BtreeMap Hash Hash

abbrev pub new : Mempool
new = record { pool = []; inputs = []; outputs = [] }

abbrev pub contains_input : Hash → Mempool → Bool
contains_input input_hash m = contains_key input_hash m.inputs

abbrev pub contains_output : Hash → Mempool → Bool
contains_output output_hash m = contains_key output_hash m.outputs

abbrev pub contains_tx : Hash → Mempool → Bool
contains_tx tx_hash m = contains_key tx_hash m.pool

-- The loop of `push_tx` that indexes a transaction by some hashes.
unfoldable pub insert_owned : Hash → List Hash → BtreeMap Hash Hash → Outcome (BtreeMap Hash Hash)
insert_owned tx_hash [] index = done index
insert_owned tx_hash (h ∷ hs) index = do
  assert (not (contains_key h index))
  insert_owned tx_hash hs (insert h tx_hash index)

-- The loop of `prune_txs` that removes a transaction from an index.
unfoldable pub remove_owned : Hash → List Hash → BtreeMap Hash Hash → Outcome (BtreeMap Hash Hash)
remove_owned tx_hash [] index = done index
remove_owned tx_hash (h ∷ hs) index = elim (lookup h index) [
  | none ↦ remove_owned tx_hash hs index
  | some tx_hash2 ↦ do assert (tx_hash2 == tx_hash); remove_owned tx_hash hs (remove h index)
]

-- `tx_hashes.insert(tx_hash)` on a set.
abbrev pub insert_hash : Hash → List Hash → List Hash
insert_hash h hs = if contains h hs then hs else h ∷ hs

-- The loop of `prune` and `pop_micro_block` that removes hashes from an index, and collects the
-- transactions they belong to.
unfoldable pub collect : List Hash → BtreeMap Hash Hash → List Hash → BtreeMap Hash Hash × List Hash
collect [] index tx_hashes = (index, tx_hashes)
collect (h ∷ hs) index tx_hashes = elim (lookup h index) [
  | none ↦ collect hs index tx_hashes
  | some tx_hash ↦ collect hs (remove h index) (insert_hash tx_hash tx_hashes)
]

module _ (p : Primitives) where
  abbrev pub output_hashes : Transaction → List Hash
  output_hashes tx = map p.digest (txouts tx)

  unfoldable pub push_tx : Hash → Transaction → Mempool → Outcome Mempool
  push_tx tx_hash tx m = do
    inputs ← insert_owned tx_hash (txins tx) m.inputs
    outputs ← insert_owned tx_hash (output_hashes tx) m.outputs
    assert (not (contains_key tx_hash m.pool))
    done (record { pool = insert tx_hash tx m.pool; inputs = inputs; outputs = outputs })

  -- The loop of `prune_txs`, with the transactions pruned so far.
  unfoldable pub prune_txs :
      List Hash
      → Mempool
      → BtreeMap Hash Transaction
      → Outcome (BtreeMap Hash Transaction × Mempool)
  prune_txs [] m txs = done (txs, m)
  prune_txs (tx_hash ∷ tx_hashes) m txs = do
    tx ← unwrap (lookup tx_hash m.pool)
    inputs ← remove_owned tx_hash (txins tx) m.inputs
    outputs ← remove_owned tx_hash (output_hashes tx) m.outputs
    assert (not (contains_key tx_hash txs))
    prune_txs tx_hashes
        (record { pool = remove tx_hash m.pool; inputs = inputs; outputs = outputs })
        (insert tx_hash tx txs)

  -- Whether all the hashes stand in the set.
  abbrev pub all_contained : List Hash → List Hash → Bool
  all_contained set [] = true
  all_contained set (h ∷ hs) = contains h set && all_contained set hs

  abbrev pub is_full : List Hash → List Hash → Transaction → Bool
  is_full input_set output_set tx =
      all_contained input_set (txins tx) && all_contained output_set (output_hashes tx)

  -- The loop of `prune` over the transactions pruned.
  unfoldable pub add_statuses :
      List Hash
      → List Hash
      → BtreeMap Hash Transaction
      → BtreeMap Hash (Transaction × Bool)
      → Outcome (BtreeMap Hash (Transaction × Bool))
  add_statuses input_set output_set [] statuses = done statuses
  add_statuses input_set output_set ((h, tx) ∷ txs) statuses = do
    assert (not (contains_key h statuses))
    add_statuses input_set output_set txs (insert h (tx, is_full input_set output_set tx) statuses)

  unfoldable pub prune :
      List Hash → List Hash → Mempool → Outcome (BtreeMap Hash (Transaction × Bool) × Mempool)
  prune input_set output_set m = do
    let (inputs, by_inputs) = collect input_set m.inputs []
    let (outputs, tx_hashes) = collect output_set m.outputs by_inputs
    let rest : Mempool = record { pool = m.pool; inputs = inputs; outputs = outputs }
    (txs, rest) ← prune_txs tx_hashes rest []
    statuses ← add_statuses input_set output_set txs []
    done (statuses, rest)

  unfoldable pub push_all : List Transaction → Mempool → Outcome Mempool
  push_all [] m = done m
  push_all (tx ∷ txs) m = do m ← push_tx (p.digest_tx tx) tx m; push_all txs m

  -- The loop of `pop_micro_block` over the outputs of the transactions.
  unfoldable pub collect_spent :
      List Transaction → BtreeMap Hash Hash → List Hash → BtreeMap Hash Hash × List Hash
  collect_spent [] inputs tx_hashes = (inputs, tx_hashes)
  collect_spent (tx ∷ txs) inputs tx_hashes =
      let (inputs, tx_hashes) = collect (output_hashes tx) inputs tx_hashes in
      collect_spent txs inputs tx_hashes

  unfoldable pub pop_micro_block : List Transaction → Mempool → Outcome Mempool
  pop_micro_block txs m = do
    let (inputs, tx_hashes) = collect_spent txs m.inputs []
    (_, rest) ←
        prune_txs tx_hashes (record { pool = m.pool; inputs = inputs; outputs = m.outputs }) []
    push_all txs rest
