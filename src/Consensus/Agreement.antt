-- ===== src/Consensus/Agreement.antt =====
-- The states that a node can reach by the calls of node/src/lib.rs, and two nodes that commit.
use stegos.Prelude.{
  ℕ, ◌*◌, ◌<◌, ◌≡◌, ◌≢◌, true, some, List, [], ◌∷◌, arith, is_some, Outcome, done, Returns,
  is_some-value,
}
use stegos.Prelude.Order.{nat_ord, eq?→≡}
use stegos.BtreeMap.{contains_key, lookup}
use stegos.Crypto.{Hash, PublicKey, SecretKey, Signature, IsSound}
use stegos.Election.{ElectionResult}
use stegos.Election.Winner.{slots, slot_counts, total}
use stegos.Consensus.State.{ConsensusState, ConsensusMessage, MacroBlock, Consensus, Env}
use stegos.Consensus.Feed.{Verdict, should_prevote, feed_message}
use stegos.Consensus.Rounds.{new, reset, next_round, propose, vote, should_propose}
use stegos.Consensus.Votes.{
  Slots, Votes, tally, common, tally-common, common-voter, AreVoters-contains_key,
}
use stegos.Consensus.Invariant.{IsGroup, IsQuorum, Signed, Inv}
use stegos.Consensus.Total.{feed_message-Inv}
use stegos.Consensus.Driver.{new-Inv, vote-Inv, propose-Inv, reset_keeps, next_round-Inv}

-- Any order of calls: messages of other keys, and the calls of node/src/lib.rs with what it checks
-- before them.
pub data Step {B P : Type 0} (env : Env B P) (me : SecretKey)
    : Consensus B P → Consensus B P → Type 0 where
  receives :
      (msg : ConsensusMessage P) (verdict : Verdict) {s t : Consensus B P}
      → msg.pkey ≢ env.signing.public_key me
      → feed_message env 3 msg s ≡ done (t, verdict)
      → Step env me s t
  votes :
      (block : MacroBlock B) {s t : Consensus B P}
      → should_prevote env s ≡ true
      → s.block_hash ≡ some (env.block_digest block.content)
      → vote env 3 block s ≡ done t
      → Step env me s t
  proposes :
      (h : Hash) (p : P) {s t : Consensus B P}
      → should_propose env s ≡ done true
      → propose env 3 h p s ≡ done t
      → Step env me s t
  resets : {s t : Consensus B P} → reset env 3 s ≡ done t → Step env me s t
  times_out :
      {s t : Consensus B P}
      → s.state ≢ ConsensusState.commit
      → (s.state ≡ ConsensusState.precommit → is_some s.block ≡ true)
      → next_round env 3 s ≡ done t
      → Step env me s t

pub data Reach {B P : Type 0} (env : Env B P) (ws : Slots) (es : List (PublicKey × ℕ))
    (me : SecretKey) : Consensus B P → Type 0 where
  starts :
      (epoch : ℕ) (election_result : ElectionResult) {s : Consensus B P}
      → contains_key (env.signing.public_key me) ws ≡ true
      → election_result.validators ≡ slots es
      → new env epoch me (env.signing.public_key me) election_result (slots ws) ≡ done s
      → Reach env ws es me s
  steps : {s t : Consensus B P} → Reach env ws es me s → Step env me s t → Reach env ws es me t

pub Signed-lookup :
    {B P : Type 0} (env : Env B P) (h : Hash) (k : PublicKey) (signers : Votes) {sig : Signature}
    → Signed env h signers
    → lookup k signers ≡ some sig
    → env.signing.check_hash h sig k ≡ true
unfolding lookup
Signed-lookup env h k [] v e = absurd (ground arith)
Signed-lookup env h k ((j, old) ∷ signers) {sig} v e =
    ground (arith, eq?→≡ k j, Signed-lookup env h k signers {sig = sig} v.1)

module _ {B P : Type 0} (env : Env B P) (sound : IsSound env.signing) (ws : Slots)
    (es : List (PublicKey × ℕ)) (g : IsGroup ws es) where
  module _ (me : SecretKey) where
    kept : {A : Type 0} (Q : A → Type 0) (m : Outcome A) {a : A} → m ≡ done a → Returns m Q → Q a
    kept Q m e h = rw e at h

    -- Every step keeps the invariant.
    Step-Inv : {s t : Consensus B P} → Step env me s t → Inv env ws es me s → Inv env ws es me t
    Step-Inv {s} (receives msg verdict other e) v =
        (kept _ _ e (feed_message-Inv env sound ws es me g 3 msg s (omega arith) v other)).0
    Step-Inv {s} (votes block should hashed e) v =
        kept _ _ e (vote-Inv env sound ws es me g 3 (omega arith) block s v should hashed)
    Step-Inv {s} (proposes h p should e) v =
        kept _ _ e (propose-Inv env sound ws es me g 3 (omega arith) h p s v should)
    Step-Inv {s} (resets e) v = kept _ _ e (reset_keeps env sound ws es me g 3 (omega arith) s v)
    Step-Inv {s} (times_out open? saved e) v =
        kept _ _ e (next_round-Inv env sound ws es me g 3 (omega arith) s v open? saved)

    -- Every state that a member of the group reaches has the invariant.
    pub Reach-Inv : {s : Consensus B P} → Reach env ws es me s → Inv env ws es me s
    Reach-Inv (starts epoch e member leaders made) =
        kept _ _ made (new-Inv env sound ws es me g epoch e member leaders)
    Reach-Inv (steps r st) = Step-Inv st (Reach-Inv r)

    -- A reachable state `Commit` holds precommits of more than two thirds of the slots, each a valid
    -- signature of a validator over the block's hash.
    pub commit-IsQuorum :
        {s : Consensus B P}
        → Reach env ws es me s
        → s.state ≡ ConsensusState.commit
        → (h : Hash) × (s.block_hash ≡ some h)
          × IsQuorum ws s.precommits
          × Signed env h s.precommits
    commit-IsQuorum {s} r here =
        let v = Reach-Inv r in
        let (h, hashed) = is_some-value s.block_hash (ground (arith, v.in_state)) in
        (h, hashed, ground (arith, v.in_state), ground (arith, v.signed))

  -- If two members of the group reach `Commit`, on the hashes `h1` and `h2`, then validators with
  -- more than a third of the slots are in both sets of precommits, and at least one validator of the
  -- group has a valid signature over each of the two hashes.
  pub agreement :
      (me1 me2 : SecretKey) {s1 s2 : Consensus B P}
      → Reach env ws es me1 s1
      → Reach env ws es me2 s2
      → s1.state ≡ ConsensusState.commit
      → s2.state ≡ ConsensusState.commit
      → (h1 h2 : Hash) × (s1.block_hash ≡ some h1)
        × (s2.block_hash ≡ some h2)
        × (total (slot_counts ws) < tally ws (common s1.precommits s2.precommits) * 3)
        × ((k : PublicKey) × (sig1 sig2 : Signature) × (contains_key k ws ≡ true)
            × (env.signing.check_hash h1 sig1 k ≡ true)
            × (env.signing.check_hash h2 sig2 k ≡ true))
  agreement me1 me2 {s1} {s2} r1 r2 here1 here2 =
      let (h1, e1, q1, v1) = commit-IsQuorum me1 r1 here1 in
      let (h2, e2, q2, v2) = commit-IsQuorum me2 r2 here2 in
      let shared =
        tally-common ws s1.precommits s2.precommits (Reach-Inv me1 r1).precommits_sorted
          (Reach-Inv me2 r2).precommits_sorted in
      let (k, in1, in2) = common-voter ws s1.precommits s2.precommits (omega arith) in
      let (sig1, f1) = is_some-value (lookup k s1.precommits) in1 in
      let (sig2, f2) = is_some-value (lookup k s2.precommits) in2 in
      (
        h1,
        h2,
        e1,
        e2,
        omega arith,
        (
          k,
          sig1,
          sig2,
          AreVoters-contains_key k ws s1.precommits (Reach-Inv me1 r1).precommitters in1,
          Signed-lookup env h1 k s1.precommits v1 f1,
          Signed-lookup env h2 k s2.precommits v2 f2,
        ),
      )
