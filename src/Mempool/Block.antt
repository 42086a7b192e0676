-- ===== src/Mempool/Block.antt =====
-- node/src/mempool.rs, `create_block`: the transactions of a new micro block.
pub mod Priority
pub mod Filled
use stegos.Prelude.{
  ℕ, ◌+◌, ◌-◌, ◌^◌, ◌≡◌, Bool, true, false, ◌||◌, Option, none, some, List, [], ◌∷◌, ◌++◌, length,
  leb, if◌then◌else◌, Outcome, done, panicked, ◌>>=◌, unwrap,
}
use stegos.Prelude.Int.{ℤ, pos, leb_ℤ, ◌+i64◌, ◌-i64◌}
use stegos.Crypto.{Hash}
use stegos.Transaction.{
  Fr, Output, payment_output, PaymentOutput, Transaction, coinbase_transaction, payment_transaction,
  restake_transaction, slashing_transaction, service_award_transaction, fee, txins, txouts,
}

-- A restaking goes first.
abbrev pub prio : Transaction → ℤ
prio (restake_transaction tx) = pos (2 ^ 63 - 1)
prio tx = fee tx

-- The key by which the transactions are sorted.
abbrev pub sort_key : Transaction → ℤ
sort_key tx = pos 0 -i64 prio tx

unfoldable pub insert_tx : Transaction → List Transaction → List Transaction
insert_tx tx [] = tx ∷ []
insert_tx tx (t ∷ ts) =
    let rest = insert_tx tx ts in if leb_ℤ (sort_key tx) (sort_key t) then tx ∷ t ∷ ts else t ∷ rest

-- `sort_by_key`, which keeps the order of equal keys.
unfoldable pub sort_pool : List Transaction → List Transaction
sort_pool [] = []
sort_pool (tx ∷ txs) = insert_tx tx (sort_pool txs)

-- The types that a pool may hold.
abbrev pub is_proper : Transaction → Bool
is_proper (payment_transaction tx) = true
is_proper (restake_transaction tx) = true
is_proper (slashing_transaction tx) = true
is_proper (coinbase_transaction tx) = false
is_proper (service_award_transaction tx) = false

-- The loop over the sorted pool, with the inputs, the outputs and the fee so far: the transactions
-- taken, and their fee.
unfoldable pub fill :
    (max_inputs max_outputs inputs outputs : ℕ)
    → ℤ
    → List Transaction
    → Outcome (List Transaction × ℤ)
fill max_inputs max_outputs inputs outputs block_fee [] = done ([], block_fee)
fill max_inputs max_outputs inputs outputs block_fee (tx ∷ txs) =
    let next =
      fill max_inputs max_outputs (inputs + length (txins tx)) (outputs + length (txouts tx))
        (block_fee +i64 fee tx) txs in
    if is_proper tx
    then (if leb max_inputs (inputs + length (txins tx))
          || leb max_outputs (outputs + length (txouts tx))
        then done ([], block_fee)
        else (do (taken, total) ← next; done (tx ∷ taken, total)))
    else panicked

-- What the coinbase needs: `PaymentOutput::with_payload` for the recipient, with the adjustment of
-- the output, and the negation of a scalar.
pub record Minting : Type 0 where
  pub with_payload : ℤ → Option (PaymentOutput × Fr)
  pub zero_scalar : Fr
  pub sub_scalar : Fr → Fr → Fr

module _ (minting : Minting) where
  -- The outputs of the coinbase and its `gamma`.
  unfoldable pub mint : ℤ → Outcome (List Output × Fr)
  mint amount = if leb_ℤ amount (pos 0) then done ([], minting.zero_scalar) else (do
    (output, gamma) ← unwrap (minting.with_payload amount)
    done (payment_output output ∷ [], minting.sub_scalar minting.zero_scalar gamma))

  -- `pool` has the transactions of the map in the order of its iteration. The block's header, which
  -- only passes values on, is left out.
  unfoldable pub create_block :
      ℤ → (max_inputs max_outputs : ℕ) → List Transaction → Outcome (List Transaction)
  create_block block_reward max_inputs max_outputs pool = do
    (taken, block_fee) ← fill max_inputs max_outputs 0 1 (pos 0) (sort_pool pool)
    (txouts, gamma) ← mint (block_reward +i64 block_fee)
    done (
        coinbase_transaction (record {
          block_reward = block_reward;
          block_fee = block_fee;
          gamma = gamma;
          txouts = txouts;
        })
        ∷ taken)
