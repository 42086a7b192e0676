-- ===== src/Transaction/Validate/Payment.antt =====
-- About `PaymentTransaction::validate`.
use stegos.Prelude.{
  unnot, ◌≡◌, refl, sym, ap, ◌∙◌, true, false, not, ◌==◌, ==→≡, List, [], ◌∷◌, map, length,
  is_empty, done, ok, assert-done, reject_if-ok, try_then-ok, >>=-eq-done, arith,
}
use stegos.Prelude.Int.{pos, ltb_ℤ}
use stegos.Crypto.{Hash}
use stegos.Transaction.{
  Pt, Output, payment_output, public_payment_output, stake_output, PaymentTransaction,
  payment_transaction, Primitives, pedersen_commitment, recipient_pkey,
}
use stegos.Transaction.Validate.{contains, sum_inputs, sum_outputs, validate_payment}
use stegos.Transaction.Validate.Unique.{Unique, UniqueAfter, UniqueAfter-Unique}

-- The points of the curve are a commutative group.
pub record IsGroup (p : Primitives) : Type 0 where
  pub add_assoc : (a b c : Pt) → p.add (p.add a b) c ≡ p.add a (p.add b c)
  pub add_comm : (a b : Pt) → p.add a b ≡ p.add b a
  pub add_inf : (a : Pt) → p.add a p.inf ≡ a
  pub add_sub : (a b : Pt) → p.add (p.sub a b) b ≡ a
  pub sub_add : (a b : Pt) → p.sub (p.add a b) b ≡ a

module _ (p : Primitives) where
  abbrev pub total : List Pt → Pt
  total [] = p.inf
  total (k ∷ ks) = p.add k (total ks)

  -- The commitment to the amount of an output.
  abbrev pub commitment : Output → Pt
  commitment (payment_output o) = o.proof.vcmt
  commitment (public_payment_output o) = p.commit_amount o.amount
  commitment (stake_output o) = p.commit_amount o.amount

  pedersen_commitment-done :
      (o : Output) {k : Pt} → pedersen_commitment p o ≡ done k → k ≡ commitment o
  pedersen_commitment-done (payment_output o) e = ground arith
  pedersen_commitment-done (public_payment_output o) e = ground arith
  pedersen_commitment-done (stake_output o) e = ground arith

  sum_inputs-UniqueAfter :
      (h : Hash) (seen : List Hash) (s k : Pt) (txins : List Hash) (inputs : List Output)
      {r : Pt × Pt}
      → length txins ≡ length inputs
      → sum_inputs p h seen s k txins inputs ≡ done (ok r)
      → UniqueAfter seen txins
  unfolding sum_inputs
  sum_inputs-UniqueAfter h seen s k [] inputs len run = tt
  sum_inputs-UniqueAfter h seen s k (x ∷ txins) [] len run = absurd (omega (arith, len))
  sum_inputs-UniqueAfter h seen s k (x ∷ txins) (o ∷ inputs) len run =
      let (_, run) = assert-done (p.digest o == x) _ run in
      let (fresh, run) = reject_if-ok (contains x seen) _ _ run in
      let (c, _, run) = >>=-eq-done (pedersen_commitment p o) _ run in
      (
        fresh,
        sum_inputs-UniqueAfter h (x ∷ seen) (p.add s c) (p.add k (p.add (recipient_pkey p o) c))
            txins inputs (omega (arith, len)) run,
      )

  sum_outputs-UniqueAfter :
      (h : Hash) (seen : List Hash) (s k : Pt) (txouts : List Output) {r : Pt × Pt}
      → sum_outputs p h seen s k txouts ≡ done (ok r)
      → UniqueAfter seen (map p.digest txouts)
  unfolding sum_outputs
  sum_outputs-UniqueAfter h seen s k [] run = tt
  sum_outputs-UniqueAfter h seen s k (o ∷ txouts) run =
      let (fresh, run) = reject_if-ok (contains (p.digest o) seen) _ _ run in
      let (c, _, run) = >>=-eq-done (pedersen_commitment p o) _ run in
      (fresh, sum_outputs-UniqueAfter h (p.digest o ∷ seen) (p.add s c) (p.sub k c) txouts run)

  pub validate_payment-Unique :
      (tx : PaymentTransaction) (inputs : List Output)
      → validate_payment p tx inputs ≡ done (ok tt)
      → Unique tx.txins × Unique (map p.digest tx.txouts)
  unfolding validate_payment
  validate_payment-Unique tx inputs run =
      let h : Hash = p.digest_tx (payment_transaction tx) in
      let (len, run) = assert-done (length tx.txins == length inputs) _ run in
      let (_, run) = reject_if-ok (is_empty tx.txins) _ _ run in
      let (_, run) = reject_if-ok (ltb_ℤ tx.fee (pos 0)) _ _ run in
      let ((s, k), in_run, run) =
        try_then-ok (sum_inputs p h [] p.inf p.inf tx.txins inputs) _ run in
      let (_, out_run, _) = try_then-ok (sum_outputs p h [] p.inf k tx.txouts) _ run in
      (
        UniqueAfter-Unique [] tx.txins (
            sum_inputs-UniqueAfter h [] p.inf p.inf tx.txins inputs
              (==→≡ (length tx.txins) (length inputs) len) in_run),
        UniqueAfter-Unique [] (map p.digest tx.txouts)
            (sum_outputs-UniqueAfter h [] p.inf k tx.txouts out_run),
      )

  module _ (group : IsGroup p) where
    regroup : (a b c d : Pt) → p.add (p.add a b) (p.add c d) ≡ p.add (p.add a c) (p.add b d)
    regroup a b c d =
        group.add_assoc a b (p.add c d)
        ∙ ap (p.add a) (
            sym (group.add_assoc b c d)
            ∙ ap (λ x. p.add x d) (group.add_comm b c)
            ∙ group.add_assoc c b d)
        ∙ sym (group.add_assoc a c (p.add b d))

    sum_inputs-ok :
        (h : Hash) (seen : List Hash) (s k : Pt) (txins : List Hash) (inputs : List Output)
        {t e : Pt}
        → length txins ≡ length inputs
        → sum_inputs p h seen s k txins inputs ≡ done (ok (t, e))
        → (map p.digest inputs ≡ txins)
          × UniqueAfter seen txins
          × (t ≡ p.add s (total (map commitment inputs)))
          × (e
              ≡ p.add k
                  (p.add (total (map (recipient_pkey p) inputs)) (total (map commitment inputs))))
    unfolding sum_inputs
    sum_inputs-ok h seen s k [] [] len run =
        (refl, tt, rw (group.add_inf s) cc, rw (group.add_inf p.inf, group.add_inf k) cc)
    sum_inputs-ok h seen s k [] (o ∷ inputs) len run = absurd (omega (arith, len))
    sum_inputs-ok h seen s k (x ∷ txins) [] len run = absurd (omega (arith, len))
    sum_inputs-ok h seen s k (x ∷ txins) (o ∷ inputs) len run =
        let (same, run) = assert-done (p.digest o == x) _ run in
        let (fresh, run) = reject_if-ok (contains x seen) _ _ run in
        let (c, found, run) = >>=-eq-done (pedersen_commitment p o) _ run in
        let (digests, unique, sum, key) =
          sum_inputs-ok h (x ∷ seen) (p.add s c) (p.add k (p.add (recipient_pkey p o) c)) txins
            inputs (omega (arith, len)) run in
        let is_c = pedersen_commitment-done o found in
        (
          rw (==→≡ (p.digest o) x same, digests) refl,
          (fresh, unique),
          rw (sym (group.add_assoc s (commitment o) (total (map commitment inputs))), sym is_c) sum,
          key
              ∙ group.add_assoc k (p.add (recipient_pkey p o) c) _
              ∙ ap (p.add k) (regroup (recipient_pkey p o) c _ _)
              ∙ ap
                  (λ x. p.add k (
                    p.add (total (map (recipient_pkey p) (o ∷ inputs)))
                      (p.add x (total (map commitment inputs)))))
                  is_c,
        )

    -- If what is subtracted is a part of the key so far, the rest of it is left.
    sum_outputs-ok :
        (h : Hash) (seen : List Hash) (s k y : Pt) (txouts : List Output) {t e : Pt}
        → k ≡ p.add y (total (map commitment txouts))
        → sum_outputs p h seen s k txouts ≡ done (ok (t, e))
        → UniqueAfter seen (map p.digest txouts)
          × (t ≡ p.add s (total (map commitment txouts)))
          × (e ≡ y)
    unfolding sum_outputs
    sum_outputs-ok h seen s k y [] part run =
        let part : k ≡ y = part ∙ group.add_inf y in (tt, rw (group.add_inf s) cc, cc)
    sum_outputs-ok h seen s k y (o ∷ txouts) part run =
        let (fresh, run) = reject_if-ok (contains (p.digest o) seen) _ _ run in
        let (c, found, run) = >>=-eq-done (pedersen_commitment p o) _ run in
        let is_c = pedersen_commitment-done o found in
        let rest : Pt = total (map commitment txouts) in
        let part : p.sub k c ≡ p.add y rest =
          ap (p.sub k) is_c
          ∙ ap (λ x. p.sub x (commitment o))
              (part
                ∙ ap (p.add y) (group.add_comm (commitment o) rest)
                ∙ sym (group.add_assoc y rest (commitment o)))
          ∙ group.sub_add (p.add y rest) (commitment o) in
        let (unique, sum, key) =
          sum_outputs-ok h (p.digest o ∷ seen) (p.add s c) (p.sub k c) y txouts part run in
        ((fresh, unique), rw (sym (group.add_assoc s (commitment o) rest), sym is_c) sum, key)

    inf_add : (a : Pt) → p.add p.inf a ≡ a
    inf_add a = group.add_comm p.inf a ∙ group.add_inf a

    -- What a balanced sum leaves of the key.
    spent :
        (keys ins outs adj k e : Pt)
        → k ≡ p.add keys ins
        → ins ≡ p.add outs adj
        → e ≡ p.sub k outs
        → p.sub e adj ≡ keys
    spent keys ins outs adj k e is_k balance is_e =
        ap (λ x. p.sub x adj)
          (is_e
            ∙ ap (λ x. p.sub x outs)
                (is_k
                  ∙ ap (p.add keys) (balance ∙ group.add_comm outs adj)
                  ∙ sym (group.add_assoc keys adj outs))
            ∙ group.sub_add (p.add keys adj) outs)
        ∙ group.sub_add keys adj

    -- On a curve whose points are a commutative group, a payment that `validate` accepts has an input,
    -- a fee that is not negative, inputs with the digests that it names, no input or output twice, and
    -- commitments of the inputs that add up to those of the outputs and of the fee. Its signature holds
    -- for the sum of the recipients' keys of its inputs.
    pub validate_payment_lem :
        (tx : PaymentTransaction) (inputs : List Output)
        → validate_payment p tx inputs ≡ done (ok tt)
        → (is_empty tx.txins ≡ false)
          × (ltb_ℤ tx.fee (pos 0) ≡ false)
          × (map p.digest inputs ≡ PaymentTransaction.txins tx)
          × Unique tx.txins
          × Unique (map p.digest tx.txouts)
          × (total (map commitment inputs)
              ≡ p.add (total (map commitment tx.txouts)) (p.commit tx.gamma tx.fee))
          × (p.validate_sig
                (p.digest_tx (payment_transaction tx))
                tx.sig
                (total (map (recipient_pkey p) inputs))
              ≡ true)
    unfolding validate_payment
    validate_payment_lem tx inputs run =
        let h : Hash = p.digest_tx (payment_transaction tx) in
        let keys : Pt = total (map (recipient_pkey p) inputs) in
        let ins : Pt = total (map commitment inputs) in
        let outs : Pt = total (map commitment tx.txouts) in
        let adj : Pt = p.commit tx.gamma tx.fee in
        let (len, run) = assert-done (length tx.txins == length inputs) _ run in
        let (has_inputs, run) = reject_if-ok (is_empty tx.txins) _ _ run in
        let (fee_ok, run) = reject_if-ok (ltb_ℤ tx.fee (pos 0)) _ _ run in
        let ((s, k), in_run, run) =
          try_then-ok (sum_inputs p h [] p.inf p.inf tx.txins inputs) _ run in
        let ((t, e), out_run, run) = try_then-ok (sum_outputs p h [] p.inf k tx.txouts) _ run in
        let (balanced, run) = reject_if-ok (not (s == p.add t adj)) _ _ run in
        let (signed, _) = reject_if-ok (not (p.validate_sig h tx.sig (p.sub e adj))) _ _ run in
        let (digests, unique_in, sum_in, key_in) =
          sum_inputs-ok h [] p.inf p.inf tx.txins inputs
            (==→≡ (length tx.txins) (length inputs) len) in_run in
        let (unique_out, sum_out, key_out) =
          sum_outputs-ok h [] p.inf k (p.sub k outs) tx.txouts (sym (group.add_sub k outs))
            out_run in
        let balance : ins ≡ p.add outs adj =
          sym (inf_add ins)
          ∙ sym sum_in
          ∙ ==→≡ s (p.add t adj) (ground (arith, balanced))
          ∙ ap (λ x. p.add x adj) (sum_out ∙ inf_add outs) in
        (
          has_inputs,
          fee_ok,
          digests,
          UniqueAfter-Unique [] tx.txins unique_in,
          UniqueAfter-Unique [] (map p.digest tx.txouts) unique_out,
          balance,
          rw (spent keys ins outs adj k e (key_in ∙ inf_add (p.add keys ins)) balance key_out) at
              (unnot signed),
        )
