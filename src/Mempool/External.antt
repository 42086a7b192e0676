-- ===== src/Mempool/External.antt =====
-- node/src/validation.rs: the validation of a transaction that another node sends, before it enters
-- the pool.
pub mod Accepted
use stegos.Prelude.{
  ◌≡◌, Bool, true, false, ◌||◌, Option, none, some, List, [], ◌∷◌, ◌++◌, map, if◌then◌else◌,
  Outcome, panicked, out_of_fuel, done, Result, ok, err, reject_if, try_then,
}
use stegos.Prelude.Int.{ℤ, pos, ltb_ℤ, ◌+i64◌}
use stegos.Crypto.{Hash}
use stegos.Transaction.{
  Output, payment_output, public_payment_output, stake_output, Transaction, coinbase_transaction,
  payment_transaction, restake_transaction, slashing_transaction, service_award_transaction, fee,
  txins, txouts, Primitives, TransactionError, missing_input, output_hash_collision,
  received_invalid_transaction, validate_output,
}
use stegos.Transaction.Validate.{validate_payment, validate_restake}
use stegos.Mempool.{Mempool, contains_tx, contains_input, contains_output}

-- What the validation asks of the blockchain; `StorageError` is an error of the database.
pub record Chain (StorageError : Type 0) : Type 0 where
  pub output_by_hash : Hash → Result StorageError (Option Output)
  pub contains_output : Hash → Bool
  pub validate_stakes : List Output → List Output → Result StorageError (Unit {0})

pub data NodeError (StorageError : Type 0) : Type 0 where
  already_exists : Hash → NodeError StorageError
  too_low_fee : Hash → (min got : ℤ) → NodeError StorageError
  transaction_error : TransactionError → NodeError StorageError
  storage_error : StorageError → NodeError StorageError

-- `?` on a result with an error of another type.
abbrev pub lift_err : {E F A : Type 0} → (E → F) → Result E A → Result F A
lift_err f (ok a) = ok a
lift_err f (err e) = err (f e)

abbrev pub lift_error : {E F A : Type 0} → (E → F) → Outcome (Result E A) → Outcome (Result F A)
lift_error f (done r) = done (lift_err f r)
lift_error f panicked = panicked
lift_error f out_of_fuel = out_of_fuel

-- The least fee for the outputs, summed up in an `i64`.
abbrev pub output_fee : ℤ → ℤ → Output → ℤ
output_fee payment_fee stake_fee (stake_output o) = stake_fee
output_fee payment_fee stake_fee _ = payment_fee

unfoldable pub sum_fees : ℤ → ℤ → ℤ → List Output → ℤ
sum_fees payment_fee stake_fee min_fee [] = min_fee
sum_fees payment_fee stake_fee min_fee (txout ∷ txouts) =
    sum_fees payment_fee stake_fee (min_fee +i64 output_fee payment_fee stake_fee txout) txouts

module _ {StorageError : Type 0} (p : Primitives) (chain : Chain StorageError) where
  -- The loop over the inputs, with the outputs they resolve to.
  unfoldable pub resolve_inputs :
      Hash
      → Mempool
      → List Output
      → List Hash
      → Outcome (Result (NodeError StorageError) (List Output))
  resolve_inputs tx_hash mempool inputs [] = done (ok inputs)
  resolve_inputs tx_hash mempool inputs (h ∷ hs) =
      try_then (done (lift_err storage_error (chain.output_by_hash h))) λ found. elim found [
        | none ↦ done (err (transaction_error (missing_input tx_hash h)))
        | some input ↦
            reject_if (contains_input h mempool) (transaction_error (missing_input tx_hash h))
              (resolve_inputs tx_hash mempool (inputs ++ input ∷ []) hs)
      ]

  -- The loop over the outputs.
  unfoldable pub check_outputs :
      Hash → Mempool → List Output → Outcome (Result (NodeError StorageError) (Unit {0}))
  check_outputs tx_hash mempool [] = done (ok tt)
  check_outputs tx_hash mempool (output ∷ outputs) =
      let h = p.digest output in
      reject_if (contains_output h mempool || chain.contains_output h)
        (transaction_error (output_hash_collision tx_hash h))
        (try_then (lift_error transaction_error (validate_output p output))
          λ _. check_outputs tx_hash mempool outputs)

  abbrev pub check_stakes : Transaction → List Output → Result (NodeError StorageError) (Unit {0})
  check_stakes (slashing_transaction tx) inputs = ok tt
  check_stakes tx inputs = lift_err storage_error (chain.validate_stakes inputs (txouts tx))

  abbrev pub check_by_type :
      Transaction → List Output → Outcome (Result (NodeError StorageError) (Unit {0}))
  check_by_type (restake_transaction tx) inputs =
      lift_error transaction_error (validate_restake p tx inputs)
  check_by_type (payment_transaction tx) inputs =
      lift_error transaction_error (validate_payment p tx inputs)
  check_by_type _ inputs = done (err (transaction_error received_invalid_transaction))

  unfoldable pub validate_external_transaction :
      Transaction
      → Mempool
      → (payment_fee stake_fee : ℤ) → Outcome (Result (NodeError StorageError) (Unit {0}))
  validate_external_transaction tx mempool payment_fee stake_fee =
      let tx_hash = p.digest_tx tx in
      reject_if (contains_tx tx_hash mempool) (already_exists tx_hash) (
        let min_fee = sum_fees payment_fee stake_fee (pos 0) (txouts tx) in
        reject_if (ltb_ℤ (fee tx) min_fee) (too_low_fee tx_hash min_fee (fee tx)) (
          try_then (resolve_inputs tx_hash mempool [] (txins tx)) λ inputs.
            try_then (check_outputs tx_hash mempool (txouts tx))
              λ _. try_then (done (check_stakes tx inputs)) λ _. check_by_type tx inputs))
