-- ===== src/Consensus/Handlers.antt =====
-- About the methods that `feed_message` calls, and that call it again.
use stegos.Prelude.{
  ℕ, ◌≤◌, ◌≡◌, ◌≢◌, inl, inr, refl, Bool, true, false, Option, none, some, List, [], ◌∷◌, ◌++◌,
  arith, is_some, All, ◌==◌, ==_refl, Outcome, done, Returns, Returns-mono, Returns-bind,
  Returns-assert, Returns-unwrap, Returns-step, Returns-if, Bool-cases, ==→≡, is_some-value, not,
}
use stegos.Prelude.Order.{nat_ord}
use stegos.BtreeMap.{lookup}
use stegos.Crypto.{Hash, PublicKey, SecretKey}
use stegos.Consensus.State.{
  ConsensusState, is_state, ConsensusMessageBody, ConsensusMessage, MacroBlock, LockedRound,
  Consensus, Env,
}
use stegos.Consensus.Feed.{
  Verdict, own_message, send, prevote, precommit, feed_all, process_inbox, adopt_lock,
  differs_from_lock, should_prevote,
}
use stegos.Consensus.Votes.{Slots}
use stegos.Consensus.Invariant.{IsGroup, depth, Inv, Fits, leads, Own, Allowed, Post}

module _ {B P : Type 0} (env : Env B P) (ws : Slots) (es : List (PublicKey × ℕ)) (me : SecretKey)
    (g : IsGroup ws es) where
  abbrev pub Again : Type 0
  Again = ConsensusMessage P → Consensus B P → Outcome (Consensus B P × Verdict)

  -- `again` serves states of depth up to `n`.
  abbrev pub Handles : Again → ℕ → Type 0
  Handles again n =
      (msg : ConsensusMessage P) (s : Consensus B P)
      → Inv env ws es me s
      → depth s.state ≤ n
      → Allowed env ws es me msg s
      → Returns (again msg s) (Post env ws es me msg s)

  -- The invariant, and the state that has not gone back.
  abbrev pub Keeps : Consensus B P → Consensus B P → Type 0
  Keeps s t = Inv env ws es me t × (depth t.state ≤ depth s.state)

  module _ (again : Again) (n : ℕ) (handles : Handles again n) where
    pub send-Keeps :
        (h : Hash) (body : ConsensusMessageBody P) (s : Consensus B P)
        → Inv env ws es me s
        → depth s.state ≤ n
        → Fits env ws es me body h s.state (leads env ws es me s) s.block s.block_hash
        → Returns (send env again (own_message env s h body) s) (Keeps s)
    unfolding send
    send-Keeps h body s v d f =
        let msg = own_message env s h body in
        let t = record s { outbox = s.outbox ++ msg ∷ [] } in
        let own : Own env ws es me msg t = record { made = refl; suits = f } in
        Returns-bind (Post env ws es me msg t) (Keeps s) (again msg t) _
          (handles msg t (ground arith) d (inr own))
          (λ (u, verdict) (w, le, fine). rw (fine own) (w, le))

    pub feed_all-Keeps :
        (inbox : List (ConsensusMessage P)) (s : Consensus B P)
        → Inv env ws es me s
        → depth s.state ≤ n
        → All (λ m. m.pkey ≢ env.signing.public_key me) inbox
        → Returns (feed_all env again inbox s) (Keeps s)
    unfolding feed_all
    feed_all-Keeps [] s v d others = (v, omega arith)
    feed_all-Keeps (msg ∷ inbox) s v d others =
        Returns-bind (Post env ws es me msg s) (Keeps s) (again msg s) _
          (handles msg s v d (inl others.0))
          (λ (t, _) (w, le, _).
            Returns-mono (Keeps t) (Keeps s) (feed_all env again inbox t)
              (feed_all-Keeps inbox t w (omega arith) others.1) (λ u (x, le'). (x, omega arith)))

    pub process_inbox-Keeps :
        (s : Consensus B P)
        → Inv env ws es me s
        → depth s.state ≤ n
        → Returns (process_inbox env again s) (Keeps s)
    unfolding process_inbox
    process_inbox-Keeps s v d =
        feed_all-Keeps s.inbox (record s { inbox = [] }) (ground arith) d v.others

    -- After the proposal the block's hash and the proposal are known.
    started :
        (s : Consensus B P)
        → Inv env ws es me s
        → s.state ≢ ConsensusState.propose
        → (is_some s.block_hash ≡ true) × (is_some s.block_proposal ≡ true)
    started s v ne = ground arith

    differs-done :
        (h : Hash) (locked : Option (LockedRound B P)) (p : Option P)
        → is_some p ≡ true
        → (b : Bool) × (differs_from_lock env h locked p ≡ done b)
    differs-done h none p e = (false, refl)
    differs-done h (some l) (some p) e = elim (Bool-cases (h == env.block_digest l.block.content)) [
      | inl same ↦
          (not (env.proposal_digest l.block_proposal == env.proposal_digest p), rw same refl)
      | inr other ↦ (true, rw other refl)
    ]
    differs-done h (some l) none e = absurd (ground arith)

    pub prevote-Keeps :
        (block : MacroBlock B) (s : Consensus B P)
        → Inv env ws es me s
        → depth s.state ≤ n
        → should_prevote env s ≡ true
        → s.block_hash ≡ some (env.block_digest block.content)
        → Returns (prevote env again block s) (Keeps s)
    unfolding prevote
    prevote-Keeps block s v d should hashed =
        let t = record s { block = some block } in
        let h = env.block_digest block.content in
        let ne : s.state ≢ ConsensusState.propose = ground arith in
        let w : Inv env ws es me t = ground arith in
        let (b, e) = differs-done h s.locked_round s.block_proposal (started s v ne).1 in
        Returns-assert (Keeps s) (should_prevote env s) _ should (
          Returns-unwrap (Keeps s) s.block_hash _ hashed (
            Returns-assert (Keeps s) (h == h) _ (==_refl h) (
              Returns-step (Keeps s) (differs_from_lock env h s.locked_round s.block_proposal) _ e (
                Returns-if (Keeps s) b _ _ (λ _. (w, omega arith))
                  (λ _. send-Keeps h ConsensusMessageBody.prevote t w d (ne, hashed, refl))))))

    should-fresh :
        (s : Consensus B P)
        → s.state ≡ ConsensusState.prevote
        → s.prevotes ≡ []
        → should_prevote env s ≡ true
    unfolding lookup
    should-fresh s here fresh = ground arith

    -- The lock that is taken up has votes for the hash that is voted on.
    adopted-Inv :
        (l : LockedRound B P) (h : Hash) (s : Consensus B P)
        → s.locked_round ≡ some l
        → Inv env ws es me s
        → s.state ≡ ConsensusState.prevote
        → s.block_hash ≡ some h
        → h ≡ env.block_digest l.block.content
        → Inv env ws es me (record s { locked_round = none; precommits = l.precommits })
    adopted-Inv l h s lr v here hashed same = ground arith

    pub precommit-Keeps :
        (s : Consensus B P)
        → Inv env ws es me s
        → depth s.state ≤ n
        → s.state ≡ ConsensusState.precommit
        → is_some s.block ≡ true
        → Returns (precommit env again s) (Keeps s)
    unfolding precommit
    precommit-Keeps s v d here saved =
        let (h, e) = is_some-value s.block_hash (started s v (ground arith)).0 in
        let body = ConsensusMessageBody.precommit (env.signing.sign_hash h s.skey) in
        Returns-assert (Keeps s) (is_state s.state ConsensusState.precommit) _ (ground arith) (
          Returns-assert (Keeps s) (is_some s.block) _ saved (
            Returns-unwrap (Keeps s) s.block_hash _ e
              (send-Keeps h body s v d (here, e, ground arith))))

    -- `s` is the state with the proposal that is accepted.
    pub adopt_lock-Keeps :
        (locked : Option (LockedRound B P)) (h : Hash) (p : P) (s : Consensus B P)
        → s.locked_round ≡ locked
        → Inv env ws es me s
        → depth s.state ≤ n
        → s.state ≡ ConsensusState.prevote
        → s.block_hash ≡ some h
        → s.prevotes ≡ []
        → s.block ≡ none
        → Returns (adopt_lock env again locked h p s) (Keeps s)
    unfolding adopt_lock
    adopt_lock-Keeps none h p s lr v d here hashed fresh unsaved = (v, omega arith)
    adopt_lock-Keeps (some l) h p s lr v d here hashed fresh unsaved =
        let t = record s { locked_round = none; precommits = l.precommits } in
        Returns-if (Keeps s) _ (prevote env again l.block t) (done s)
          (λ same.
            let e : h ≡ env.block_digest l.block.content = ==→≡ _ _ (ground arith) in
            prevote-Keeps l.block t (adopted-Inv l h s lr v here hashed e) d
              (should-fresh s here fresh) (ground arith))
          (λ _. (v, omega arith))
