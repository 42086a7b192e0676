-- ===== src/Slashing/Accepted.antt =====
-- About the transaction that `confiscate_tx` makes, when it is validated.
use stegos.Prelude.{
  ℕ, ◌+◌, ◌≡◌, refl, sym, true, false, ◌==◌, ==_refl, List, [], ◌∷◌, length, is_empty,
  if◌then◌else◌, Outcome, done, assert-done, unwrap, >>=-eq-done, Result, ok, reject_if-ok,
  try_then-ok, arith,
}
use mathlib.Core.Path.{subst}
use stegos.Prelude.Int.{ℤ, pos, negsuc, eq_ℤ, ltb_ℤ, ◌+i64◌}
use stegos.Crypto.{Hash, PublicKey}
use stegos.Escrow.{Escrow, iter_validator_stakes, account_by_network_key}
use stegos.Transaction.{
  Primitives, SlashingProof, SlashingTransaction, Output, public_payment_output,
  slashing_transaction,
}
use stegos.Slashing.{
  Blockchain, quotient, remainder, active_stakes, other_validators, share_out, compare_txouts,
  same_hashes, validate_proof, confiscate_tx, validate_slashing,
}

done-ok :
    {E A : Type 0} {a b : A} → ◌≡◌ {A = Outcome (Result E A)} (done (ok a)) (done (ok b)) → a ≡ b
done-ok e = ground (arith, e)

same_hashes_refl : (hs : List Hash) → same_hashes hs hs ≡ true
same_hashes_refl [] = refl
same_hashes_refl (h ∷ hs) = rw (==_refl h, same_hashes_refl hs) refl

eq_ℤ_refl : (a : ℤ) → eq_ℤ a a ≡ true
eq_ℤ_refl (pos a) = ==_refl a
eq_ℤ_refl (negsuc a) = ==_refl a

-- Other random numbers change nothing that the comparison looks at.
share_out-again :
    (escrow : Escrow) (s t : ℕ → ℤ) (i : ℕ) (our_key : PublicKey) (piece change : ℤ)
    (vs : List PublicKey) {outputs : List Output}
    → share_out escrow s i our_key piece change vs ≡ done outputs
    → (again : List Output) × (share_out escrow t i our_key piece change vs ≡ done again)
      × ((h : Hash) → compare_txouts h again outputs ≡ ok tt)
unfolding share_out compare_txouts
share_out-again escrow s t i our_key piece change [] {outputs} e =
    ([], refl, λ h. ground (arith, e))
share_out-again escrow s t i our_key piece change (v ∷ vs) {outputs} e =
    let (key, account, e) = >>=-eq-done (unwrap (account_by_network_key v escrow)) _ e in
    let (rest, shared, e) = >>=-eq-done (share_out escrow s (i + 1) our_key piece change vs) _ e in
    let (again, made, same) = share_out-again escrow s t (i + 1) our_key piece change vs shared in
    let amount : ℤ = if v == our_key then piece +i64 change else piece in
    let is_outputs : public_payment_output
            (record { recipient = key; serno = s i; amount = amount })
          ∷ rest
        ≡ outputs =
      ground (arith, e) in
    (
      public_payment_output (record { recipient = key; serno = t i; amount = amount }) ∷ again,
      rw (account, made) refl,
      λ h. rw (sym is_outputs, ==_refl key, eq_ℤ_refl amount) (same h),
    )

module _ (p : Primitives) (mix : Hash → ℕ → Hash) (chain : Blockchain) where
  validated :
      (s t : ℕ → ℤ) (leader : PublicKey) (proof : SlashingProof) (hs : List Hash) (stake : ℤ)
      (outputs again : List Output)
      → (proof.block1.pkey == proof.block2.pkey) ≡ true
      → active_stakes chain.history.epoch
          ([], pos 0)
          (iter_validator_stakes proof.block1.pkey chain.escrow)
        ≡ (hs, stake)
      → is_empty (other_validators proof.block1.pkey chain.validators) ≡ false
      → is_empty hs ≡ false
      → validate_proof p mix chain proof ≡ done (ok tt)
      → ltb_ℤ (pos 0) stake ≡ true
      → share_out chain.escrow t 0 leader
          (quotient stake (length (other_validators proof.block1.pkey chain.validators)))
          (remainder stake (length (other_validators proof.block1.pkey chain.validators)))
          (other_validators proof.block1.pkey chain.validators)
        ≡ done again
      → ((h : Hash) → compare_txouts h again outputs ≡ ok tt)
      → validate_slashing p mix chain t leader
          (record { proof = proof; txins = hs; txouts = outputs })
        ≡ done (ok tt)
  unfolding confiscate_tx validate_slashing
  validated s t leader proof hs stake outputs again same stakes others inputs valid positive remade
        agree =
      rw
        (
          valid,
          same,
          stakes,
          others,
          inputs,
          positive,
          remade,
          same_hashes_refl hs,
          agree (
              p.digest_tx
                (slashing_transaction (record { proof = proof; txins = hs; txouts = outputs }))),
        )
        refl

  -- A transaction that `confiscate_tx` returns for the leader's key passes its validation for that
  -- leader, whichever random numbers either of them draws.
  pub validate_slashing-confiscate_tx :
      (s t : ℕ → ℤ) (leader : PublicKey) (proof : SlashingProof) (tx : SlashingTransaction)
      → confiscate_tx p mix chain s leader proof ≡ done (ok tx)
      → validate_slashing p mix chain t leader tx ≡ done (ok tt)
  unfolding confiscate_tx validate_slashing
  validate_slashing-confiscate_tx s t leader proof tx run =
      let cheater : PublicKey = proof.block1.pkey in
      let stakes : List Hash × ℤ =
        active_stakes chain.history.epoch ([], pos 0)
          (iter_validator_stakes cheater chain.escrow) in
      let vs : List PublicKey = other_validators cheater chain.validators in
      let piece : ℤ = quotient stakes.1 (length vs) in
      let change : ℤ = remainder stakes.1 (length vs) in
      let (same, run) = assert-done (cheater == proof.block2.pkey) _ run in
      let (others, run) = reject_if-ok (is_empty vs) _ _ run in
      let (inputs, run) = reject_if-ok (is_empty stakes.0) _ _ run in
      let (_, valid, run) = try_then-ok (validate_proof p mix chain proof) _ run in
      let (positive, run) = assert-done (ltb_ℤ (pos 0) stakes.1) _ run in
      let (outputs, shared, run) =
        >>=-eq-done (share_out chain.escrow s 0 leader piece change vs) _ run in
      let (again, remade, agree) =
        share_out-again chain.escrow s t 0 leader piece change vs shared in
      subst (λ tx. validate_slashing p mix chain t leader tx ≡ done (ok tt)) (done-ok run)
        (validated s t leader proof stakes.0 stakes.1 outputs again same refl others inputs valid
          positive remade agree)
