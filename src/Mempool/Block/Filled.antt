-- ===== src/Mempool/Block/Filled.antt =====
-- About the block that `create_block` makes.
use stegos.Prelude.{ℕ, ◌+◌, ◌≤◌, ◌<◌, ◌≡◌, ◌⊎◌, false, some, List, [], ◌∷◌, ◌++◌, map, length}
use stegos.Prelude.Int.{ℤ, pos, leb_ℤ}
use mathlib.Core.List.{Permᴰ}
use stegos.Transaction.{
  Fr, PaymentOutput, Transaction, CoinbaseTransaction, coinbase_transaction, fee, txins, txouts,
}
use stegos.Transaction.Validate.Restake.{sum_i64}
use stegos.Mempool.Block.{Minting}
use stegos.Mempool.Block.Priority.{Ordered}

-- The number of inputs and of outputs of the transactions.
abbrev pub count_txins : List Transaction → ℕ
count_txins [] = 0
count_txins (tx ∷ txs) = length (txins tx) + count_txins txs

abbrev pub count_txouts : List Transaction → ℕ
count_txouts [] = 0
count_txouts (tx ∷ txs) = length (txouts tx) + count_txouts txs

-- Nothing is left out, or the next transaction does not fit.
abbrev pub IsFull : (max_inputs max_outputs inputs outputs : ℕ) → List Transaction → Type 0
IsFull max_inputs max_outputs inputs outputs [] = Unit
IsFull max_inputs max_outputs inputs outputs (tx ∷ txs) =
    (max_inputs ≤ inputs + length (txins tx)) ⊎ (max_outputs ≤ outputs + length (txouts tx))

-- Nothing is taken, or both numbers are below their bounds.
abbrev pub Fits : (max_inputs max_outputs inputs outputs : ℕ) → List Transaction → Type 0
Fits max_inputs max_outputs inputs outputs [] = Unit
Fits max_inputs max_outputs inputs outputs (tx ∷ txs) =
    (inputs < max_inputs) × (outputs < max_outputs)

-- A block for a pool: a coinbase, and transactions of the pool in its order of priority, from the
-- first on and as many as fit, where the outputs of the block count the coinbase's.
pub record IsFilled (pool : List Transaction) (reward : ℤ) (max_inputs max_outputs : ℕ)
    (block : List Transaction) : Type 0 where
  pub coinbase : CoinbaseTransaction
  pub taken : List Transaction
  pub rest : List Transaction
  pub first : block ≡ coinbase_transaction coinbase ∷ taken
  pub same : Permᴰ (taken ++ rest) pool
  pub ordered : Ordered (taken ++ rest)
  pub block_reward : coinbase.block_reward ≡ reward
  pub block_fee : coinbase.block_fee ≡ sum_i64 (pos 0) (map fee taken)
  pub one_output : length coinbase.txouts ≤ 1
  pub fits : Fits max_inputs max_outputs (count_txins block) (count_txouts block) taken
  pub full : IsFull max_inputs max_outputs (count_txins taken) (1 + count_txouts taken) rest

module _ (minting : Minting) where
  -- Outputs can be made for every positive amount.
  abbrev pub CanMint : Type 0
  CanMint =
      (amount : ℤ)
      → leb_ℤ amount (pos 0) ≡ false
      → (made : PaymentOutput × Fr) × (minting.with_payload amount ≡ some made)
