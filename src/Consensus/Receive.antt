-- ===== src/Consensus/Receive.antt =====
-- About the body of `feed_message`, given a call of `feed_message` that it makes.
use stegos.Prelude.{
  is_empty, ℕ, suc, ◌≤◌, ◌≡◌, ◌≢◌, inl, inr, refl, true, false, none, some, List, [], ◌∷◌, arith,
  is_some, ◌==◌, done, ◌>>=◌, Returns, Returns-bind, Returns-assert, Returns-unwrap, Returns-step,
  Returns-if, ok, err, Bool-cases, not,
}
use stegos.Prelude.Order.{nat_ord}
use stegos.BtreeMap
use stegos.BtreeMap.{contains_key, lookup, lookup-insert}
use stegos.BtreeMap.Sorted.{insert-Sorted}
use stegos.Crypto.{Hash, PublicKey, SecretKey, Signature, IsSound}
use stegos.Consensus.State.{
  ConsensusState, is_state, ConsensusMessageBody, ConsensusMessage, Consensus, Env,
}
use stegos.Consensus.Feed.{
  Verdict, Transition, transition, leader, process_inbox, adopt_lock, accept_proposal,
  accept_precommit, process_body, advance, process_message,
}
use stegos.Consensus.Votes.{Slots, Votes, tally-insert, insert-AreVoters}
use stegos.Consensus.Invariant.{IsGroup, depth, Signed, Inv, Own, Allowed, Post, leader-done}
use stegos.Consensus.Handlers.{Again, Handles, Keeps, process_inbox-Keeps, adopt_lock-Keeps}
use stegos.Consensus.Advance.{advance-Keeps}

insert-Signed :
    {B P : Type 0} (env : Env B P) (h : Hash) (k : PublicKey) (sig : Signature) (votes : Votes)
    → env.signing.check_hash h sig k ≡ true
    → Signed env h votes
    → Signed env h (BtreeMap.insert k sig votes)
unfolding BtreeMap.insert
insert-Signed env h k sig [] valid v = (valid, tt)
insert-Signed env h k sig ((j, old) ∷ votes) valid v =
    ground (arith, insert-Signed env h k sig votes valid v.1)

module _ {B P : Type 0} (env : Env B P) (sound : IsSound env.signing) (ws : Slots)
    (es : List (PublicKey × ℕ)) (me : SecretKey) (g : IsGroup ws es) where
  module _ (again : Again env ws es me g) (n : ℕ) (handles : Handles env ws es me g again n) where
    -- What is known of a message whose transition is accepted.
    pub record Accepts (msg : ConsensusMessage P) (s : Consensus B P) : Type 0 where
      pub valid : Inv env ws es me s
      pub room : depth s.state ≤ suc n
      pub allowed : Allowed env ws es me msg s
      pub voter : contains_key msg.pkey ws ≡ true
      pub accepted : transition msg.body s.state ≡ Transition.accept
      pub same_hash : (s.state ≢ ConsensusState.propose) → s.block_hash ≡ some msg.block_hash
      pub unfinished : s.state ≢ ConsensusState.commit

    -- The state with an accepted proposal.
    abbrev proposed : Hash → P → Consensus B P → Consensus B P
    proposed h p s = record s {
      state = ConsensusState.prevote;
      block = none;
      block_hash = some h;
      block_proposal = some p;
    }

    proposed-Inv :
        (h : Hash) (p : P) (s : Consensus B P)
        → Inv env ws es me s
        → s.state ≡ ConsensusState.propose
        → Inv env ws es me (proposed h p s)
    unfolding lookup
    proposed-Inv h p s v here = ground arith

    Own-leads :
        (msg : ConsensusMessage P) (s : Consensus B P) (p : P) (l : PublicKey)
        → msg.body ≡ ConsensusMessageBody.proposal p
        → leader env s ≡ done l
        → (msg.pkey == l) ≡ false
        → Own env ws es me msg s
        → ⊥
    Own-leads msg s p l e led other own = ground (arith, own.made, own.suits)

    accept_proposal-Post :
        (msg : ConsensusMessage P) (p : P) (s : Consensus B P)
        → msg.body ≡ ConsensusMessageBody.proposal p
        → s.state ≡ ConsensusState.propose
        → Inv env ws es me s
        → depth s.state ≤ suc n
        → Returns (accept_proposal env again msg p s) (Post env ws es me msg s)
    unfolding accept_proposal
    accept_proposal-Post msg p s e here v d =
        let (l, led) = leader-done env ws es me g s v.fixed in
        let Q = Post env ws es me msg s in
        let t = proposed msg.block_hash p s in
        let w : Inv env ws es me t = proposed-Inv msg.block_hash p s v here in
        Returns-step Q (leader env s) _ led (
          Returns-if Q (not (msg.pkey == l)) (done _) _
            (λ other.
              (v, omega arith, λ own. absurd (Own-leads msg s p l e led (ground arith) own)))
            (λ _. Returns-assert Q (is_empty s.prevotes) _ (ground arith) (
              Returns-assert Q (not (is_some s.block_hash)) _ (ground arith) (
                Returns-assert Q (not (is_some s.block_proposal)) _ (ground arith) (
                  Returns-bind (Keeps env ws es me g t) Q
                    (adopt_lock env again s.locked_round msg.block_hash p t) _
                    (adopt_lock-Keeps env ws es me g again n handles s.locked_round msg.block_hash p
                      t refl w (ground arith) refl refl (ground arith) refl)
                    (λ u (x, le).
                      Returns-bind (Keeps env ws es me g u) Q (process_inbox env again u) _
                        (process_inbox-Keeps env ws es me g again n handles u x (ground arith))
                        (λ r (y, le'). (y, ground arith, λ _. refl))))))))

    prevoted-Inv :
        (msg : ConsensusMessage P) (s : Consensus B P)
        → msg.body ≡ ConsensusMessageBody.prevote
        → Accepts msg s
        → Inv env ws es me (record s { prevotes = BtreeMap.insert msg.pkey msg.sig s.prevotes })
    unfolding transition
    prevoted-Inv msg s e a = record {
      fixed = ground (arith, a.valid.fixed);
      prevoters = insert-AreVoters ws msg.pkey msg.sig s.prevotes a.voter a.valid.prevoters;
      prevotes_sorted = insert-Sorted msg.pkey msg.sig s.prevotes a.valid.prevotes_sorted;
      precommitters = a.valid.precommitters;
      precommits_sorted = a.valid.precommits_sorted;
      in_state =
          ground (arith, a.valid.in_state, a.accepted, tally-insert ws msg.pkey msg.sig s.prevotes);
      block_has = a.valid.block_has;
      signed = a.valid.signed;
      is_lock = a.valid.is_lock;
      own_vote = ground (
        arith,
        a.valid.own_vote,
        a.allowed,
        lookup-insert msg.pkey (env.signing.public_key me) msg.sig s.prevotes,
      );
      others = a.valid.others;
    }

    precommitted-Inv :
        (msg : ConsensusMessage P) (sig : Signature) (s : Consensus B P)
        → msg.body ≡ ConsensusMessageBody.precommit sig
        → Accepts msg s
        → env.signing.check_hash msg.block_hash sig msg.pkey ≡ true
        → s.block_hash ≡ some msg.block_hash
        → Inv env ws es me (record s { precommits = BtreeMap.insert msg.pkey sig s.precommits })
    unfolding transition
    precommitted-Inv msg sig s e a ok_sig hashed = record {
      fixed = ground (arith, a.valid.fixed);
      prevoters = a.valid.prevoters;
      prevotes_sorted = a.valid.prevotes_sorted;
      precommitters = insert-AreVoters ws msg.pkey sig s.precommits a.voter a.valid.precommitters;
      precommits_sorted = insert-Sorted msg.pkey sig s.precommits a.valid.precommits_sorted;
      in_state =
          ground (arith, a.valid.in_state, a.accepted, tally-insert ws msg.pkey sig s.precommits);
      block_has = a.valid.block_has;
      signed = ground (
        arith,
        a.valid.signed,
        insert-Signed env msg.block_hash msg.pkey sig s.precommits ok_sig,
      );
      is_lock = a.valid.is_lock;
      own_vote = a.valid.own_vote;
      others = a.valid.others;
    }

    -- This node's own precommit passes the check of its signature.
    Own-signature :
        (msg : ConsensusMessage P) (sig : Signature) (s : Consensus B P)
        → msg.body ≡ ConsensusMessageBody.precommit sig
        → Inv env ws es me s
        → Own env ws es me msg s
        → env.signing.check_hash msg.block_hash sig msg.pkey ≡ true
    Own-signature msg sig s e v own =
        ground (arith, own.made, own.suits, v.fixed, sound.check_sign msg.block_hash me)

    accept_precommit-Post :
        (msg : ConsensusMessage P) (sig : Signature) (s : Consensus B P)
        → msg.body ≡ ConsensusMessageBody.precommit sig
        → Accepts msg s
        → s.state ≢ ConsensusState.propose
        → Returns (accept_precommit env again msg sig s) (Post env ws es me msg s)
    unfolding accept_precommit
    accept_precommit-Post msg sig s e a ne =
        let Q = Post env ws es me msg s in
        let hashed = a.same_hash ne in
        Returns-unwrap Q s.block_hash _ hashed
          (elim (Bool-cases (env.signing.check_hash msg.block_hash sig msg.pkey)) [
            | inl valid ↦
                rw valid (precommitted-Inv msg sig s e a valid hashed, omega arith, λ _. refl)
            | inr invalid ↦ rw invalid (
              a.valid,
              omega arith,
              λ own. absurd (ground (arith, Own-signature msg sig s e a.valid own)),
            )
          ])

    process_body-Post :
        (msg : ConsensusMessage P) (body : ConsensusMessageBody P) (s : Consensus B P)
        → msg.body ≡ body
        → Accepts msg s
        → Returns (process_body env again msg body s) (Post env ws es me msg s)
    unfolding process_body transition
    process_body-Post msg (ConsensusMessageBody.proposal p) s e a =
        Returns-assert (Post env ws es me msg s) (is_state s.state ConsensusState.propose) _
          (ground (arith, a.accepted))
          (accept_proposal-Post msg p s e (ground (arith, a.accepted)) a.valid a.room)
    process_body-Post msg ConsensusMessageBody.prevote s e a =
        Returns-assert (Post env ws es me msg s) (not (is_state s.state ConsensusState.propose)) _
          (ground (arith, a.accepted)) (prevoted-Inv msg s e a, omega arith, λ _. refl)
    process_body-Post msg (ConsensusMessageBody.precommit sig) s e a =
        Returns-assert (Post env ws es me msg s) (not (is_state s.state ConsensusState.propose)) _
          (ground (arith, a.accepted))
          (accept_precommit-Post msg sig s e a (ground (arith, a.accepted)))

    pub process_message-Post :
        (msg : ConsensusMessage P) (s : Consensus B P)
        → Accepts msg s
        → Returns (process_message env again msg s) (Post env ws es me msg s)
    unfolding process_message
    process_message-Post msg s a =
        Returns-bind (Post env ws es me msg s) (Post env ws es me msg s)
          (process_body env again msg msg.body s) _ (process_body-Post msg msg.body s refl a)
          (λ (t, verdict) (v, le, fine). finish t verdict v le fine)
      where
        finish :
            (t : Consensus B P) (verdict : Verdict)
            → Inv env ws es me t
            → depth t.state ≤ depth s.state
            → (Own env ws es me msg s → verdict ≡ ok tt)
            → Returns {A = Consensus B P × Verdict}
                (elim verdict [
                  | err e ↦ done (t, err e)
                  | ok _ ↦ advance env again t.state t >>= λ u. done (u, ok tt)
                ])
                (Post env ws es me msg s)
        finish t (err e) v le fine = (v, le, fine)
        finish t (ok _) v le fine =
            Returns-bind (Keeps env ws es me g t) (Post env ws es me msg s)
              (advance env again t.state t) _
              (advance-Keeps env sound ws es me g again n handles t.state t refl v
                (omega (arith, a.room)))
              (λ u (w, le'). (w, omega arith, λ _. refl))
