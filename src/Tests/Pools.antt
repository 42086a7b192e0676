-- ===== src/Tests/Pools.antt =====
-- A memory pool at concrete inputs.
use stegos.Prelude.{
  ℕ, ◌+◌, ◌≡◌, refl, ◌==◌, false, if◌then◌else◌, List, [], ◌∷◌, none, some, done, ok, Returns,
  arith,
}
use stegos.Prelude.Int.{pos, ◌+ℤ◌, ◌-ℤ◌, ◌+i64◌, i64}
use stegos.Prelude.Order.{nat_ord}
use stegos.BtreeMap.{lookup, insert, remove}
use stegos.Crypto.{Hash}
use stegos.Transaction.{Transaction, payment_transaction, restake_transaction}
use stegos.Transaction.Validate.{validate_payment, sum_inputs, sum_outputs}
use stegos.Mempool.{
  Mempool, new, push_tx, prune, pop_micro_block, prune_txs, collect, insert_owned, remove_owned,
  add_statuses,
}
use stegos.Mempool.Pruned.{WellIndexed, kept_tx, pruned_tx, prune_lem}
use stegos.Mempool.Pushed.{find_tx, unspent_tx, all_outputs, pop_micro_block_lem}
use stegos.Mempool.External.{
  Chain, validate_external_transaction, resolve_inputs, check_outputs, sum_fees,
}
use stegos.Mempool.External.Accepted.{push_tx-validate_external_transaction}
use stegos.Mempool.Block.{Minting}
use stegos.Tests.Payments.{primitives, public, payment, restake, code, decode}

-- The empty pool has the right indexes.
new-WellIndexed : WellIndexed primitives [] new
unfolding lookup
new-WellIndexed = (
  record {
    owner = λ h t e. absurd (ground arith);
    entry = λ t tx h e. absurd (ground arith);
    single = λ s t sx tx h e. absurd (ground arith);
  },
  record {
    owner = λ h t e. absurd (ground arith);
    entry = λ t tx h e. absurd (ground arith);
    single = λ s t sx tx h e. absurd (ground arith);
  },
)

abbrev pay : Transaction
pay = payment_transaction payment

-- A chain with the one output that the payment spends.
abbrev chain : Chain ℕ
chain = record {
  output_by_hash = λ h. ok (if h == 1 then some (public 1 5 10) else none);
  contains_output = λ h. h == 1;
  validate_stakes = λ inputs outputs. ok tt;
}

pay-accepted : validate_external_transaction primitives chain pay new (pos 1) (pos 0) ≡ done (ok tt)
unfolding validate_external_transaction resolve_inputs check_outputs sum_fees validate_payment
    sum_inputs sum_outputs lookup ◌+i64◌ ◌+ℤ◌ ◌-ℤ◌ i64 code decode
pay-accepted = refl

push_tx-validate_external_transaction_example : Returns (push_tx primitives 100 pay new) (λ r.
    WellIndexed primitives [] r
    × ((t : Hash) → lookup t r.pool ≡ (if t == 100 then some pay else lookup t new.pool)))
push_tx-validate_external_transaction_example =
    push_tx-validate_external_transaction primitives chain pay new (pos 1) (pos 0) new-WellIndexed
      pay-accepted

-- The pool with the payment.
abbrev one_payment : Mempool
one_payment = record { pool = (100, pay) ∷ []; inputs = (1, 100) ∷ []; outputs = (2, 100) ∷ [] }

pushed : push_tx primitives 100 pay new ≡ done one_payment
unfolding push_tx insert_owned lookup insert
pushed = refl

one_payment-WellIndexed : WellIndexed primitives [] one_payment
unfolding push_tx insert_owned lookup insert
one_payment-WellIndexed =
    (push_tx-validate_external_transaction primitives chain pay new (pos 1) (pos 0) new-WellIndexed
      pay-accepted).0

pruned : prune primitives (1 ∷ []) [] one_payment ≡ done ((100, (pay, false)) ∷ [], new)
unfolding prune collect prune_txs remove_owned add_statuses lookup insert remove
pruned = refl

prune_lem_example : Returns (prune primitives (1 ∷ []) [] one_payment) (λ (statuses, rest).
    WellIndexed primitives [] rest
    × ((t : Hash) → lookup t rest.pool ≡ kept_tx primitives (1 ∷ []) [] (lookup t one_payment.pool))
    × ((t : Hash)
        → lookup t statuses ≡ pruned_tx primitives (1 ∷ []) [] (lookup t one_payment.pool)))
prune_lem_example = prune_lem primitives (1 ∷ []) [] one_payment one_payment-WellIndexed

-- A payment with the output that `pay` spends.
abbrev earlier : Transaction
earlier =
    payment_transaction
      (record { txins = 9 ∷ []; txouts = public 1 5 10 ∷ []; gamma = 0; fee = pos 0; sig = 200 })

pop_micro_block_lem_example : Returns (pop_micro_block primitives (earlier ∷ []) one_payment) (λ r.
    WellIndexed primitives [] r
    × ((t : Hash)
        → lookup t r.pool
          ≡ find_tx primitives t (earlier ∷ []) (
              unspent_tx primitives
                (all_outputs primitives (earlier ∷ []))
                (lookup t one_payment.pool))))
unfolding lookup
pop_micro_block_lem_example =
    pop_micro_block_lem primitives (earlier ∷ []) one_payment one_payment-WellIndexed
      ((refl, tt), (refl, tt), (refl, tt))
      (λ t e. ground arith, λ t e. ground arith, λ t e. ground arith)

abbrev minting : Minting
minting = record {
  with_payload = λ amount.
      some (
        record { recipient = 1; proof = record { vcmt = 0; bytes = [] }; ag = 0; payload = [] },
        0,
      );
  zero_scalar = 0;
  sub_scalar = λ a b. a + b;
}

abbrev pool : List Transaction
pool = pay ∷ restake_transaction restake ∷ earlier ∷ []
