-- ===== src/Mempool/External/Accepted.antt =====
-- About a transaction that the validation accepts, and the pool that it enters.
use stegos.Prelude.{
  ◌≡◌, false, ◌||◌, ◌==◌, ==→≡, none, some, List, [], ◌∷◌, ◌++◌, map, if◌then◌else◌, Outcome, done,
  panicked, out_of_fuel, Result, ok, err, Returns, Returns-mono, reject_if-ok, try_then-ok,
  Option-cases, inl, inr, arith,
}
use stegos.Prelude.Int.{ℤ, pos, ltb_ℤ}
use stegos.Prelude.Order.{nat_ord}
use stegos.BtreeMap.{BtreeMap, lookup, contains_key}
use stegos.Crypto.{Hash}
use stegos.Transaction.{
  Output, Transaction, coinbase_transaction, payment_transaction, restake_transaction,
  slashing_transaction, service_award_transaction, fee, txins, txouts, Primitives, validate_output,
}
use stegos.Transaction.Validate.{validate_payment, validate_restake}
use stegos.Transaction.Validate.Unique.{Unique}
use stegos.Transaction.Validate.Payment.{validate_payment-Unique}
use stegos.Transaction.Validate.Restake.{validate_restake_lem}
use stegos.Mempool.{Mempool, contains_tx, contains_input, contains_output, output_hashes, push_tx}
use stegos.Mempool.Index.{Fresh}
use stegos.Mempool.Pruned.{WellIndexed}
use stegos.Mempool.Pushed.{push_tx_lem}
use stegos.Mempool.External.{
  Chain, transaction_error, storage_error, lift_err, lift_error, sum_fees, resolve_inputs,
  check_outputs, check_stakes, check_by_type, validate_external_transaction,
}

contains_key-absent :
    {V : Type 0} (k : Hash) (m : BtreeMap Hash V) → contains_key k m ≡ false → lookup k m ≡ none
contains_key-absent k m e = ground (arith)

lift_error-ok :
    {E F A : Type 0} (f : E → F) (m : Outcome (Result E A)) {a : A}
    → lift_error f m ≡ done (ok a)
    → m ≡ done (ok a)
lift_error-ok f (done (ok a)) e = cc
lift_error-ok f (done (err x)) e = absurd (ground arith)
lift_error-ok f panicked e = absurd (ground arith)
lift_error-ok f out_of_fuel e = absurd (ground arith)

module _ {StorageError : Type 0} (p : Primitives) (chain : Chain StorageError) where
  resolve_inputs-Fresh :
      (t : Hash) (m : Mempool) (inputs : List Output) (hs : List Hash) {r : List Output}
      → resolve_inputs p chain t m inputs hs ≡ done (ok r)
      → Fresh hs m.inputs
  unfolding resolve_inputs
  resolve_inputs-Fresh t m inputs [] run = λ h e. absurd (ground arith)
  resolve_inputs-Fresh t m inputs (h ∷ hs) run =
      let (found, _, run) =
        try_then-ok (done (lift_err storage_error (chain.output_by_hash h))) _ run in
      elim (Option-cases found) [
        | inl e ↦ absurd (ground (arith, rw e at run))
        | inr (o, e) ↦
            let (free, run) = reject_if-ok (contains_input h m) _ _ (rw e at run) in
            let rest = resolve_inputs-Fresh t m (inputs ++ o ∷ []) hs run in
            λ q in_hs. ground (arith, rest q, contains_key-absent h m.inputs free, ==→≡ q h)
      ]

  check_outputs-Fresh :
      (t : Hash) (m : Mempool) (outputs : List Output)
      → check_outputs p chain t m outputs ≡ done (ok tt)
      → Fresh (map p.digest outputs) m.outputs
  unfolding check_outputs
  check_outputs-Fresh t m [] run = λ h e. absurd (ground arith)
  check_outputs-Fresh t m (o ∷ outputs) run =
      let (free, run) =
        reject_if-ok (contains_output (p.digest o) m || chain.contains_output (p.digest o)) _ _
          run in
      let (_, _, run) = try_then-ok (lift_error transaction_error (validate_output p o)) _ run in
      let rest = check_outputs-Fresh t m outputs run in
      λ q in_hs.
        ground
          (arith, rest q, contains_key-absent (p.digest o) m.outputs, free, ==→≡ q (p.digest o))

  check_by_type-Unique :
      (tx : Transaction) (inputs : List Output)
      → check_by_type p chain tx inputs ≡ done (ok tt)
      → Unique (txins tx) × Unique (output_hashes p tx)
  check_by_type-Unique (restake_transaction tx) inputs run =
      let (_, _, unique_in, unique_out, _, _, _, _) =
        validate_restake_lem p tx inputs
          (lift_error-ok transaction_error (validate_restake p tx inputs) run) in
      (unique_in, unique_out)
  check_by_type-Unique (payment_transaction tx) inputs run =
      validate_payment-Unique p tx inputs
        (lift_error-ok transaction_error (validate_payment p tx inputs) run)
  check_by_type-Unique (coinbase_transaction tx) inputs run = absurd (ground arith)
  check_by_type-Unique (slashing_transaction tx) inputs run = absurd (ground arith)
  check_by_type-Unique (service_award_transaction tx) inputs run = absurd (ground arith)

  -- If the indexes of the pool are right, then a transaction that `validate_external_transaction`
  -- accepts enters the pool by `push_tx` with no panic. The indexes are right again, and the pool has
  -- the transaction besides what it had.
  pub push_tx-validate_external_transaction :
      (tx : Transaction) (m : Mempool) (payment_fee stake_fee : ℤ)
      → WellIndexed p [] m
      → validate_external_transaction p chain tx m payment_fee stake_fee ≡ done (ok tt)
      → Returns (push_tx p (p.digest_tx tx) tx m) (λ r.
        WellIndexed p [] r
        × ((t : Hash)
            → lookup t r.pool ≡ (if t == p.digest_tx tx then some tx else lookup t m.pool)))
  unfolding validate_external_transaction
  push_tx-validate_external_transaction tx m payment_fee stake_fee wi run =
      let t : Hash = p.digest_tx tx in
      let (new, run) = reject_if-ok (contains_tx t m) _ _ run in
      let (_, run) =
        reject_if-ok (ltb_ℤ (fee tx) (sum_fees payment_fee stake_fee (pos 0) (txouts tx))) _ _
          run in
      let (inputs, in_run, run) = try_then-ok (resolve_inputs p chain t m [] (txins tx)) _ run in
      let (_, out_run, run) = try_then-ok (check_outputs p chain t m (txouts tx)) _ run in
      let (_, _, run) = try_then-ok (done (check_stakes p chain tx inputs)) _ run in
      let (unique_in, unique_out) = check_by_type-Unique tx inputs run in
      Returns-mono _ _ (push_tx p t tx m)
        (push_tx_lem p t tx m wi (contains_key-absent t m.pool new) unique_in unique_out
          (resolve_inputs-Fresh t m [] (txins tx) in_run)
          (check_outputs-Fresh t m (txouts tx) out_run))
        λ r (wi2, pool, _, _). (wi2, pool)
