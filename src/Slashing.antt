-- ===== src/Slashing.antt =====
-- blockchain/src/slashing.rs: the proof that a leader has signed two blocks, and the transaction that
-- shares the stake of the cheater out. With the validation of it, in blockchain/src/validation.rs.
pub mod Proof
pub mod Caught
pub mod Shared
pub mod Accepted
use stegos.Prelude.{
  ℕ, ◌+◌, ◌/◌, ◌%◌, ◌≡◌, Bool, true, false, not, ◌==◌, ◌||◌, ◌&&◌, Option, none, some, List, [],
  ◌∷◌, ◌++◌, map, length, is_empty, leb, if◌then◌else◌, Outcome, done, ◌>>=◌, ◌>>◌, assert, unwrap,
  Result, ok, err, reject_if, try_then,
}
use stegos.Prelude.Int.{ℤ, pos, negsuc, sub_ℕ, eq_ℤ, ltb_ℤ, ◌+i64◌}
use stegos.BtreeMap.{BtreeMap}
use stegos.Crypto.{Hash, PublicKey}
use stegos.Election.{select_leader}
use stegos.ElectionHistory.{Chain, election_result_by_offset}
use stegos.Escrow.{
  Escrow, EscrowKey, EscrowValue, Stakes, iter_validator_stakes, account_by_network_key,
}
use stegos.Transaction.{
  Primitives, MicroBlock, SlashingProof, SlashingTransaction, slashing_transaction, Output,
  PublicPaymentOutput, public_payment_output,
}

pub data SlashingError : Type 0 where
  invalid_proof_epoch : (proof_epoch epoch : ℕ) → SlashingError
  different_leader : (view_change1 view_change2 : ℕ) → SlashingError
  block_without_conflicts : (epoch offset : ℕ) → Hash → SlashingError
  last_validator : PublicKey → SlashingError
  not_validator : PublicKey → SlashingError
  different_history : (previous1 previous2 : Hash) → SlashingError
  different_epoch : (epoch1 epoch2 : ℕ) → SlashingError
  different_offset : (offset1 offset2 : ℕ) → SlashingError
  incorrect_txins : Hash → SlashingError
  incorrect_txouts : Hash → SlashingError

pub data BlockchainError : Type 0 where
  crypto_error : BlockchainError
  slashing_error : SlashingError → BlockchainError

-- What is read of the blockchain: the epoch, the offset and the versions of the election result, the
-- validators of the current one, and the stakes.
pub record Blockchain : Type 0 where
  pub history : Chain
  pub validators : List (PublicKey × ℤ)
  pub escrow : Escrow

-- The fold over the stakes of the cheater: the hashes and the sum of those that are active.
unfoldable pub active_stakes : ℕ → List Hash × ℤ → Stakes → List Hash × ℤ
active_stakes epoch acc [] = acc
active_stakes epoch (result, stake) ((key, value) ∷ m) =
    active_stakes epoch
      (if leb epoch value.active_until_epoch
        then (result ++ key.1 ∷ [], stake +i64 value.amount)
        else (result, stake))
      m

-- The validators but for the cheater.
unfoldable pub other_validators : PublicKey → List (PublicKey × ℤ) → List PublicKey
other_validators cheater [] = []
other_validators cheater (v ∷ validators) =
    let rest = other_validators cheater validators in
    if not (v.0 == cheater) then v.0 ∷ rest else rest

-- Division of an `i64` by a number of elements, towards zero, and its rest.
abbrev pub quotient : ℤ → ℕ → ℤ
quotient (pos a) n = pos (a / n)
quotient (negsuc a) n = sub_ℕ 0 ((a + 1) / n)

abbrev pub remainder : ℤ → ℕ → ℤ
remainder (pos a) n = pos (a % n)
remainder (negsuc a) n = sub_ℕ 0 ((a + 1) % n)

-- `serno` are the random numbers that `PublicPaymentOutput::new` draws, the next one at `i`.
unfoldable pub share_out :
    Escrow
    → (serno : ℕ → ℤ) → (i : ℕ) → (our_key : PublicKey) → (piece change : ℤ) → List PublicKey
    → Outcome (List Output)
share_out escrow serno i our_key piece change [] = done []
share_out escrow serno i our_key piece change (validator ∷ validators) = do
  key ← unwrap (account_by_network_key validator escrow)
  let amount = if validator == our_key then piece +i64 change else piece
  outputs ← share_out escrow serno (i + 1) our_key piece change validators
  done (
      public_payment_output (record { recipient = key; serno = serno i; amount = amount })
      ∷ outputs)

-- The comparison of two lists of hashes.
abbrev pub same_hashes : List Hash → List Hash → Bool
same_hashes [] [] = true
same_hashes (h ∷ hs) (k ∷ ks) = h == k && same_hashes hs ks
same_hashes _ _ = false

-- The comparison of the outputs, as far as both lists go.
unfoldable pub compare_txouts : Hash → List Output → List Output → Result SlashingError (Unit {0})
compare_txouts tx_hash (public_payment_output a ∷ txouts1) (public_payment_output b ∷ txouts2) =
    let rest = compare_txouts tx_hash txouts1 txouts2 in
    if not (a.recipient == b.recipient) || not (eq_ℤ a.amount b.amount)
    then err (incorrect_txins tx_hash)
    else rest
compare_txouts tx_hash (_ ∷ _) (_ ∷ _) = err (incorrect_txouts tx_hash)
compare_txouts tx_hash _ _ = ok tt

-- An error as that of the blockchain.
abbrev pub to_blockchain_error : {A : Type 0} → Result SlashingError A → Result BlockchainError A
to_blockchain_error (ok a) = ok a
to_blockchain_error (err e) = err (slashing_error e)

module _ (p : Primitives) (mix : Hash → ℕ → Hash) (chain : Blockchain) where
  -- `SlashingProof::validate`
  unfoldable pub validate_proof : SlashingProof → Outcome (Result BlockchainError (Unit {0}))
  validate_proof proof =
      let block1 = proof.block1 in
      let block2 = proof.block2 in
      let block1_hash = p.digest_block block1 in
      let block2_hash = p.digest_block block2 in
      reject_if (not (block1.epoch == block2.epoch))
        (slashing_error (different_epoch block1.epoch block2.epoch))
        (reject_if (not (block1.offset == block2.offset))
          (slashing_error (different_offset block1.offset block2.offset))
          (reject_if (not (block1.epoch == chain.history.epoch))
            (slashing_error (invalid_proof_epoch block1.epoch chain.history.epoch))
            (reject_if (not (block1.previous == block2.previous))
              (slashing_error (different_history block1.previous block2.previous))
              (reject_if (not (block1.view_change == block2.view_change))
                (slashing_error (different_leader block1.view_change block2.view_change))
                (reject_if (block1_hash == block2_hash)
                  (slashing_error (block_without_conflicts block1.epoch block1.offset block1_hash))
                  (do
                    election_result ← election_result_by_offset block1.offset chain.history
                    leader_pk ← select_leader mix election_result block1.view_change
                    reject_if (not (p.signing.check_hash block1_hash block1.sig leader_pk))
                        crypto_error
                        (reject_if (not (p.signing.check_hash block2_hash block2.sig leader_pk))
                          crypto_error (done (ok tt)))))))))

  unfoldable pub confiscate_tx :
      (serno : ℕ → ℤ)
      → (our_key : PublicKey) → SlashingProof
      → Outcome (Result BlockchainError SlashingTransaction)
  confiscate_tx serno our_key proof = do
    assert (proof.block1.pkey == proof.block2.pkey)
    let cheater = proof.block1.pkey
    let stakes =
        active_stakes chain.history.epoch ([], pos 0) (iter_validator_stakes cheater chain.escrow)
    let validators = other_validators cheater chain.validators
    reject_if (is_empty validators) (slashing_error (last_validator cheater)) (
        reject_if (is_empty stakes.0) (slashing_error (not_validator cheater)) (
          try_then (validate_proof proof) λ _. do
            assert (ltb_ℤ (pos 0) stakes.1)
            let piece = quotient stakes.1 (length validators)
            let change = remainder stakes.1 (length validators)
            outputs ← share_out chain.escrow serno 0 our_key piece change validators
            done (ok (record { proof = proof; txins = stakes.0; txouts = outputs }))))

  -- `SlashingTransaction::validate`
  unfoldable pub validate_slashing :
      (serno : ℕ → ℤ)
      → (leader : PublicKey) → SlashingTransaction
      → Outcome (Result BlockchainError (Unit {0}))
  validate_slashing serno leader self = try_then (validate_proof self.proof) λ _.
      try_then (confiscate_tx serno leader self.proof) λ tx.
        let tx_hash = p.digest_tx (slashing_transaction self) in
        reject_if (not (same_hashes tx.txins self.txins)) (slashing_error (incorrect_txins tx_hash))
          (done (to_blockchain_error (compare_txouts tx_hash tx.txouts self.txouts)))
