-- ===== src/Slashing/Caught.antt =====
-- About a leader who signs two blocks for one place in the chain.
use stegos.Prelude.{ℕ, ◌<◌, ◌≡◌, ◌≢◌, sym, ap, ◌∙◌, true, false, done, ok}
use stegos.Prelude.Order.{pair_ord, gt?, ge?}
use stegos.Crypto.{Hash, PublicKey}
use stegos.Election.{ElectionResult, select_leader}
use stegos.ElectionHistory.{Chain, election_result, lsn_before, election_result_by_offset, Steps}
use stegos.ElectionHistory.Past.{election_result_by_offset-Steps, epoch-Steps}
use stegos.Mvcc.{current_lsn}
use stegos.Transaction.{Primitives, SlashingProof}
use stegos.Slashing.{Blockchain, validate_proof}
use stegos.Slashing.Proof.{validate_proof_lem}

module _ (p : Primitives) where
  -- Two different blocks for the place of a chain `s`: its epoch and offset, after the same block.
  pub record IsDouble (s : Chain) (proof : SlashingProof) : Type 0 where
    pub epoch1 : proof.block1.epoch ≡ s.epoch
    pub epoch2 : proof.block2.epoch ≡ s.epoch
    pub offset1 : proof.block1.offset ≡ s.offset
    pub offset2 : proof.block2.offset ≡ s.offset
    pub previous : proof.block1.previous ≡ proof.block2.previous
    pub view_change : proof.block1.view_change ≡ proof.block2.view_change
    pub differ : p.digest_block proof.block1 ≢ p.digest_block proof.block2

module _ (p : Primitives) (mix : Hash → ℕ → Hash) where
  -- In an epoch after the first, if the last change of the election result and its checkpoint come
  -- before the current offset, and the leader that this result gives for a view change signs two
  -- different blocks for this place with this view change, then the proof is accepted, with no panic,
  -- after any changes of the view, slashings and blocks that follow in the epoch.
  pub validate_proof-Steps :
      (s : Chain) (chain : Blockchain) (proof : SlashingProof) {result : ElectionResult}
      {leader : PublicKey}
      → 0 < s.epoch
      → election_result s ≡ done result
      → ge? (lsn_before s.epoch s.offset) s.election_result.checkpoint_lsn ≡ true
      → gt? (current_lsn s.election_result) (lsn_before s.epoch s.offset) ≡ false
      → Steps s chain.history
      → IsDouble p s proof
      → select_leader mix result proof.block1.view_change ≡ done leader
      → p.signing.check_hash (p.digest_block proof.block1) proof.block1.sig leader ≡ true
      → p.signing.check_hash (p.digest_block proof.block2) proof.block2.sig leader ≡ true
      → validate_proof p mix chain proof ≡ done (ok tt)
  validate_proof-Steps s chain proof {result} {leader} positive held old now steps double leads
        signed1 signed2 =
      (validate_proof_lem p mix chain proof).1 (record {
        same_epoch = double.epoch1 ∙ sym double.epoch2;
        current = double.epoch1 ∙ sym (epoch-Steps s chain.history positive steps);
        same_offset = double.offset1 ∙ sym double.offset2;
        same_previous = double.previous;
        same_view_change = double.view_change;
        differ = double.differ;
        election = result;
        elected =
            ap (λ o. election_result_by_offset o chain.history) double.offset1
            ∙ election_result_by_offset-Steps s chain.history positive held old now steps;
        leader = leader;
        leads = leads;
        signed1 = signed1;
        signed2 = signed2;
      })
