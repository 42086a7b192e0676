-- ===== src/Slashing/Proof.antt =====
-- About the proofs that are accepted.
use stegos.Prelude.{
  ℕ, ◌≡◌, ◌≢◌, ◌↔◌, refl, Bool, true, false, not, ◌==◌, ==→≡, ==_refl, Bool-cases, inl, inr,
  Outcome, done, >>=-eq-done, Result, ok, reject_if, reject_if-ok, unnot, arith,
}
use stegos.Crypto.{Hash, PublicKey}
use stegos.Election.{ElectionResult, select_leader}
use stegos.ElectionHistory.{election_result_by_offset}
use stegos.Transaction.{Primitives, SlashingProof}
use stegos.Slashing.{Blockchain, validate_proof}

==-of-≢ : (a b : ℕ) → a ≢ b → (a == b) ≡ false
==-of-≢ a b other = elim (Bool-cases (a == b)) [
  | inl same ↦ absurd (other (==→≡ a b same))
  | inr e ↦ e
]

≢-of-== : (a b : ℕ) → (a == b) ≡ false → a ≢ b
≢-of-== a b e same = absurd (ground (arith, rw same at e, ==_refl b))

not-== : {a b : ℕ} → a ≡ b → not (a == b) ≡ false
not-== {a} {b} same = rw (same, ==_refl b) refl

reject_if-pass :
    {E A : Type 0} {b : Bool} (e : E) {m r : Outcome (Result E A)}
    → b ≡ false
    → m ≡ r
    → reject_if b e m ≡ r
reject_if-pass e pass rest = rw pass rest

module _ (p : Primitives) (mix : Hash → ℕ → Hash) (chain : Blockchain) where
  -- Two different blocks of the current epoch, for one place in the chain, which the leader of that
  -- place has signed.
  pub record IsConflict (proof : SlashingProof) : Type 0 where
    pub same_epoch : proof.block1.epoch ≡ proof.block2.epoch
    pub current : proof.block1.epoch ≡ chain.history.epoch
    pub same_offset : proof.block1.offset ≡ proof.block2.offset
    pub same_previous : proof.block1.previous ≡ proof.block2.previous
    pub same_view_change : proof.block1.view_change ≡ proof.block2.view_change
    pub differ : p.digest_block proof.block1 ≢ p.digest_block proof.block2
    pub election : ElectionResult
    pub elected : election_result_by_offset proof.block1.offset chain.history ≡ done election
    pub leader : PublicKey
    pub leads : select_leader mix election proof.block1.view_change ≡ done leader
    pub signed1 : p.signing.check_hash (p.digest_block proof.block1) proof.block1.sig leader ≡ true
    pub signed2 : p.signing.check_hash (p.digest_block proof.block2) proof.block2.sig leader ≡ true

  -- A proof is accepted just if its blocks are different ones of the current epoch, with one offset,
  -- one previous block and one view change, and the leader elected for that offset and view change
  -- has signed both.
  pub validate_proof_lem :
      (proof : SlashingProof) → (validate_proof p mix chain proof ≡ done (ok tt)) ↔ IsConflict proof
  unfolding validate_proof
  validate_proof_lem proof = (
    λ run.
        let (epoch, run) = reject_if-ok _ _ _ run in
        let (offset, run) = reject_if-ok _ _ _ run in
        let (current, run) = reject_if-ok _ _ _ run in
        let (previous, run) = reject_if-ok _ _ _ run in
        let (view_change, run) = reject_if-ok _ _ _ run in
        let (differ, run) = reject_if-ok _ _ _ run in
        let (election, elected, run) =
          >>=-eq-done (election_result_by_offset proof.block1.offset chain.history) _ run in
        let (leader, leads, run) =
          >>=-eq-done (select_leader mix election proof.block1.view_change) _ run in
        let (signed1, run) = reject_if-ok _ _ _ run in
        let (signed2, run) = reject_if-ok _ _ _ run in
        record {
          same_epoch = ==→≡ proof.block1.epoch proof.block2.epoch (unnot epoch);
          current = ==→≡ proof.block1.epoch chain.history.epoch (unnot current);
          same_offset = ==→≡ proof.block1.offset proof.block2.offset (unnot offset);
          same_previous = ==→≡ proof.block1.previous proof.block2.previous (unnot previous);
          same_view_change =
              ==→≡ proof.block1.view_change proof.block2.view_change (unnot view_change);
          differ = ≢-of-== (p.digest_block proof.block1) (p.digest_block proof.block2) differ;
          election = election;
          elected = elected;
          leader = leader;
          leads = leads;
          signed1 = unnot signed1;
          signed2 = unnot signed2;
        },
    λ h. reject_if-pass _ (not-== h.same_epoch) (
        reject_if-pass _ (not-== h.same_offset) (
          reject_if-pass _ (not-== h.current) (
            reject_if-pass _ (not-== h.same_previous) (
              reject_if-pass _ (not-== h.same_view_change) (
                reject_if-pass _
                  (==-of-≢ (p.digest_block proof.block1) (p.digest_block proof.block2) h.differ)
                  (rw (h.elected, h.leads, h.signed1, h.signed2) refl)))))),
  )
