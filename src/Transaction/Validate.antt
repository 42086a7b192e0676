-- ===== src/Transaction/Validate.antt =====
-- blockchain/src/validation.rs: the validation of a coinbase, a payment and a restaking
-- transaction.
pub mod Unique
pub mod Payment
pub mod Restake
use stegos.Prelude.{
  ℕ, ◌≡◌, Bool, true, false, ◌==◌, ◌||◌, Option, none, some, List, [], ◌∷◌, length, is_empty,
  if◌then◌else◌, not, Outcome, done, panicked, ◌>>=◌, ◌>>◌, assert, Result, ok, err, reject_if,
  try_then,
}
use stegos.Prelude.Int.{ℤ, pos, ltb_ℤ, leb_ℤ, eq_ℤ, ◌+i64◌}
use stegos.Crypto.{Hash, PublicKey, Signing}
use stegos.Transaction.{
  Pt, Output, payment_output, public_payment_output, stake_output, CoinbaseTransaction,
  PaymentTransaction, RestakeTransaction, coinbase_transaction, payment_transaction,
  restake_transaction, Primitives, TransactionError, invalid_signature, invalid_monetary_balance,
  negative_fee, negative_reward, no_inputs, duplicate_input, duplicate_output,
  non_payment_output_in_coinbase, invalid_restaking_input, mixed_restaking_owners,
  no_restaking_txins, invalid_restaking_output, fee_a, pedersen_commitment, recipient_pkey,
  validate_output,
}

-- The set of the hashes that a loop has seen, as the list of them.
abbrev pub contains : Hash → List Hash → Bool
contains h [] = false
contains h (k ∷ ks) = (h == k) || contains h ks

module _ (p : Primitives) where
  -- The loop over the outputs of a coinbase transaction.
  unfoldable pub sum_mined : Hash → Pt → List Output → Outcome (Result TransactionError Pt)
  sum_mined tx_hash mined [] = done (ok mined)
  sum_mined tx_hash mined (payment_output o ∷ outputs) =
      try_then (validate_output p (payment_output o)) λ _.
        pedersen_commitment p (payment_output o) >>= λ cmt.
        sum_mined tx_hash (p.add mined cmt) outputs
  sum_mined tx_hash mined (output ∷ outputs) =
      done (err (non_payment_output_in_coinbase tx_hash (p.digest output)))

  unfoldable pub validate_coinbase :
      CoinbaseTransaction → Outcome (Result TransactionError (Unit {0}))
  validate_coinbase tx =
      let tx_hash = p.digest_tx (coinbase_transaction tx) in
      reject_if (ltb_ℤ tx.block_reward (pos 0)) (negative_reward tx_hash) (
        reject_if (ltb_ℤ tx.block_fee (pos 0)) (negative_fee tx_hash) (
          try_then (sum_mined tx_hash p.inf tx.txouts) λ mined.
            fee_a p (tx.block_reward +i64 tx.block_fee) >>= λ total.
            reject_if (not (p.add mined (p.blind tx.gamma) == total))
              (invalid_monetary_balance tx_hash) (done (ok tt))))

  -- The loop over the inputs of a payment, with the inputs seen, their sum and the key so far.
  unfoldable pub sum_inputs :
      Hash
      → List Hash
      → Pt
      → Pt
      → List Hash
      → List Output
      → Outcome (Result TransactionError (Pt × Pt))
  sum_inputs tx_hash seen txin_sum eff_pkey (txin_hash ∷ txins) (txin ∷ inputs) = do
    assert (p.digest txin == txin_hash)
    reject_if (contains txin_hash seen) (duplicate_input tx_hash txin_hash) (
        pedersen_commitment p txin >>= λ cmt.
        sum_inputs tx_hash (txin_hash ∷ seen) (p.add txin_sum cmt)
          (p.add eff_pkey (p.add (recipient_pkey p txin) cmt)) txins inputs)
  sum_inputs tx_hash seen txin_sum eff_pkey _ _ = done (ok (txin_sum, eff_pkey))

  -- The loop over its outputs.
  unfoldable pub sum_outputs :
      Hash → List Hash → Pt → Pt → List Output → Outcome (Result TransactionError (Pt × Pt))
  sum_outputs tx_hash seen txout_sum eff_pkey [] = done (ok (txout_sum, eff_pkey))
  sum_outputs tx_hash seen txout_sum eff_pkey (txout ∷ txouts) =
      let txout_hash = p.digest txout in
      reject_if (contains txout_hash seen) (duplicate_output tx_hash txout_hash) (
        pedersen_commitment p txout >>= λ cmt.
        sum_outputs tx_hash (txout_hash ∷ seen) (p.add txout_sum cmt) (p.sub eff_pkey cmt) txouts)

  unfoldable pub validate_payment :
      PaymentTransaction → List Output → Outcome (Result TransactionError (Unit {0}))
  validate_payment tx inputs = do
    let tx_hash = p.digest_tx (payment_transaction tx)
    assert (length tx.txins == length inputs)
    reject_if (is_empty tx.txins) (no_inputs tx_hash) (
        reject_if (ltb_ℤ tx.fee (pos 0)) (negative_fee tx_hash) (
          try_then (sum_inputs tx_hash [] p.inf p.inf tx.txins inputs) λ (txin_sum, in_pkey).
            try_then (sum_outputs tx_hash [] p.inf in_pkey tx.txouts) λ (txout_sum, out_pkey).
              let adj = p.commit tx.gamma tx.fee in
              reject_if (not (txin_sum == p.add txout_sum adj)) (invalid_monetary_balance tx_hash) (
                reject_if (not (p.validate_sig tx_hash tx.sig (p.sub out_pkey adj)))
                  (invalid_signature tx_hash) (done (ok tt)))))

  -- Whether a key was seen that is not this one.
  abbrev pub is_mixed : Option PublicKey → PublicKey → Bool
  is_mixed none validator = false
  is_mixed (some v) validator = not (v == validator)

  -- The loop over the inputs of a restaking, with their key and the sum so far.
  unfoldable pub sum_stakes :
      Hash
      → List Hash
      → Option PublicKey
      → ℤ
      → List Hash
      → List Output
      → Outcome (Result TransactionError (Option PublicKey × ℤ))
  sum_stakes tx_hash seen eff_vkey txin_sum (txin_hash ∷ txins) (txin ∷ inputs) = do
    assert (p.digest txin == txin_hash)
    reject_if (contains txin_hash seen) (duplicate_input tx_hash txin_hash) (elim txin [
      | payment_output o ↦ done (err (invalid_restaking_input tx_hash txin_hash))
      | public_payment_output o ↦ done (err (invalid_restaking_input tx_hash txin_hash))
      | stake_output o ↦
          reject_if (is_mixed eff_vkey o.validator) (mixed_restaking_owners tx_hash txin_hash) (
            sum_stakes tx_hash (txin_hash ∷ seen) (some o.validator) (txin_sum +i64 o.amount) txins
              inputs)
    ])
  sum_stakes tx_hash seen eff_vkey txin_sum _ _ = done (ok (eff_vkey, txin_sum))

  -- The loop over its outputs.
  unfoldable pub sum_new_stakes :
      Hash → List Hash → Option PublicKey → ℤ → List Output → Outcome (Result TransactionError ℤ)
  sum_new_stakes tx_hash seen out_pkey txout_sum [] = done (ok txout_sum)
  sum_new_stakes tx_hash seen out_pkey txout_sum (txout ∷ txouts) =
      let txout_hash = p.digest txout in
      reject_if (contains txout_hash seen) (duplicate_output tx_hash txout_hash) (
        try_then (validate_output p txout) λ _. elim txout [
          | payment_output o ↦ done (err (invalid_restaking_output tx_hash txout_hash))
          | public_payment_output o ↦ done (err (invalid_restaking_output tx_hash txout_hash))
          | stake_output o ↦
              reject_if (is_mixed out_pkey o.validator) (mixed_restaking_owners tx_hash txout_hash)
                (sum_new_stakes tx_hash (txout_hash ∷ seen) (some o.validator)
                  (txout_sum +i64 o.amount) txouts)
        ])

  unfoldable pub validate_restake :
      RestakeTransaction → List Output → Outcome (Result TransactionError (Unit {0}))
  validate_restake tx inputs = do
    let tx_hash = p.digest_tx (restake_transaction tx)
    assert (length tx.txins == length inputs)
    reject_if (is_empty tx.txins) (no_inputs tx_hash) (
        try_then (sum_stakes tx_hash [] none (pos 0) tx.txins inputs) λ (vkey, txin_sum).
          elim vkey [
            | none ↦ done (err (no_restaking_txins tx_hash))
            | some eff_vkey ↦
                try_then (sum_new_stakes tx_hash [] none (pos 0) tx.txouts) λ txout_sum.
                  reject_if (not (eq_ℤ txin_sum txout_sum)) (invalid_monetary_balance tx_hash) (
                    reject_if (not (p.signing.check_hash tx_hash tx.sig eff_vkey))
                      (invalid_signature tx_hash) (done (ok tt)))
          ])
