-- ===== src/Consensus/Advance.antt =====
-- About the end of `feed_message`, where the state moves on.
use stegos.Prelude.{
  ℕ, suc, ◌≤◌, ◌≡◌, inl, inr, refl, List, arith, done, Returns, Returns-mono, Returns-bind,
  Returns-if, Bool-cases, not,
}
use stegos.Prelude.Order.{nat_ord}
use stegos.BtreeMap.{contains_key}
use stegos.Crypto.{PublicKey, SecretKey, IsSound}
use stegos.Consensus.State.{ConsensusState, Consensus, Env}
use stegos.Consensus.Feed.{has_supermajority, precommit, advance}
use stegos.Consensus.Votes.{Slots}
use stegos.Consensus.Invariant.{IsGroup, IsQuorum, depth, Inv, has_supermajority_lem}
use stegos.Consensus.Handlers.{Again, Handles, Keeps, precommit-Keeps}

module _ {B P : Type 0} (env : Env B P) (sound : IsSound env.signing) (ws : Slots)
    (es : List (PublicKey × ℕ)) (me : SecretKey) (g : IsGroup ws es) where
  module _ (again : Again env ws es me g) (n : ℕ) (handles : Handles env ws es me g again n) where
    promoted-Inv :
        (s : Consensus B P)
        → Inv env ws es me s
        → s.state ≡ ConsensusState.prevote
        → IsQuorum ws s.prevotes
        → Inv env ws es me (record s { state = ConsensusState.precommit })
    promoted-Inv s v here quorum = ground arith

    committed-Inv :
        (s : Consensus B P)
        → Inv env ws es me s
        → s.state ≡ ConsensusState.precommit
        → IsQuorum ws s.precommits
        → Inv env ws es me (record s { state = ConsensusState.commit })
    committed-Inv s v here quorum = ground arith

    pub advance-Keeps :
        (state : ConsensusState) (s : Consensus B P)
        → s.state ≡ state
        → Inv env ws es me s
        → depth s.state ≤ suc n
        → Returns (advance env again state s) (Keeps env ws es me g s)
    unfolding advance
    advance-Keeps ConsensusState.prevote s here v d =
        let K = Keeps env ws es me g s in
        let t = record s { state = ConsensusState.precommit } in
        Returns-bind _ K (has_supermajority s s.prevotes) _
          (has_supermajority_lem env ws es me g s s.prevotes v.fixed v.prevoters v.prevotes_sorted)
          (λ super exact.
            Returns-if K (not super) (done s) _ (λ _. (v, omega arith))
              (λ quorum.
                let w : Inv env ws es me t = promoted-Inv s v here (exact.0 (ground arith)) in
                Returns-if K (contains_key t.pkey t.prevotes) (precommit env again t) (done t)
                  (λ voted.
                    Returns-mono (Keeps env ws es me g t) K (precommit env again t)
                      (precommit-Keeps env ws es me g again n handles t w (ground arith) refl
                        (v.own_vote (rw (← v.fixed.pkey_me) voted)))
                      (λ u (x, le). (x, ground arith)))
                  (λ _. (w, ground arith))))
    advance-Keeps ConsensusState.precommit s here v d =
        Returns-bind _ (Keeps env ws es me g s) (has_supermajority s s.precommits) _
          (has_supermajority_lem env ws es me g s s.precommits v.fixed v.precommitters
            v.precommits_sorted)
          (λ super exact. elim (Bool-cases super) [
            | inl reached ↦ rw reached (committed-Inv s v here (exact.0 reached), ground arith)
            | inr short ↦ rw short (v, omega arith)
          ])
    advance-Keeps ConsensusState.propose s here v d = (v, omega arith)
    advance-Keeps ConsensusState.commit s here v d = (v, omega arith)
