-- ===== src/Consensus/Driver.antt =====
-- About the calls of the node: the start, the votes and the rounds.
use stegos.Prelude.{
  ℕ, ◌+◌, ◌≤◌, ◌%◌, ◌^◌, ◌≡◌, ◌≢◌, refl, true, Option, none, some, List, [], arith, is_some, All,
  ◌==◌, done, Returns, Returns-mono, Returns-bind, Returns-assert, Returns-unwrap, Returns-step,
  Returns-if, is_some-value, not, if◌then◌else◌,
}
use stegos.Prelude.Order.{nat_ord}
use stegos.BtreeMap.{contains_key, lookup}
use stegos.Crypto.{Hash, PublicKey, SecretKey, IsSound}
use stegos.Election.{ElectionResult}
use stegos.Election.Winner.{slots, slot_counts, sum_stakes-total, stakes-slots}
use stegos.Consensus.State.{
  ConsensusState, is_state, ConsensusMessageBody, MacroBlock, LockedRound, Consensus, Env,
}
use stegos.Consensus.Feed.{is_leader, propose_unchecked, should_prevote, feed_message}
use stegos.Consensus.Rounds.{new, repropose, reset, lock, next_round, propose, vote, should_propose}
use stegos.Consensus.Votes.{Slots, contains_key-slots}
use stegos.Consensus.Invariant.{IsGroup, IsFixed, IsLock, Inv, leads, leader-done}
use stegos.Consensus.Handlers.{Handles, Keeps, send-Keeps, process_inbox-Keeps, prevote-Keeps}
use stegos.Consensus.Total.{feed_message-Handles}

module _ {B P : Type 0} (env : Env B P) (sound : IsSound env.signing) (ws : Slots)
    (es : List (PublicKey × ℕ)) (me : SecretKey) (g : IsGroup ws es) where
  -- For a member of the group, and leaders drawn from the list `es`, `new` returns, with no panic, and
  -- its state has the invariant.
  pub new-Inv :
      (epoch : ℕ) (election_result : ElectionResult)
      → contains_key (env.signing.public_key me) ws ≡ true
      → election_result.validators ≡ slots es
      → Returns
          (new env epoch me (env.signing.public_key me) election_result (slots ws))
          (Inv env ws es me)
  unfolding new lookup
  new-Inv epoch e member leaders =
      let sum = sum_stakes-total (slot_counts ws) (omega (arith, g.fits)) in
      Returns-assert (Inv env ws es me) (contains_key (env.signing.public_key me) (slots ws)) _
        (ground (arith, contains_key-slots (env.signing.public_key me) ws, member))
        (rw (stakes-slots ws, sum) (ground arith))

  module _ (fuel : ℕ) (enough : 3 ≤ fuel) where
    handles : Handles env ws es me g (feed_message env fuel) fuel
    handles = feed_message-Handles env sound ws es me g fuel

    -- What is kept when the state is thrown away.
    record Rest (s : Consensus B P) : Type 0 where
      fixed : IsFixed env ws es me s
      is_lock : IsLock env ws s.locked_round
      others : All (λ m. m.pkey ≢ env.signing.public_key me) s.inbox

    abbrev blank : Consensus B P → Consensus B P
    blank s = record s {
      state = ConsensusState.propose;
      prevotes = [];
      precommits = [];
      block = none;
      block_hash = none;
      block_proposal = none;
      outbox = [];
    }

    blank-Inv : (s : Consensus B P) → Rest s → Inv env ws es me (blank s)
    unfolding lookup
    blank-Inv s r = ground (arith, r.fixed, r.is_lock, r.others)

    repropose-Inv :
        (locked : Option (LockedRound B P)) (s : Consensus B P)
        → Inv env ws es me s
        → s.state ≡ ConsensusState.propose
        → leads env ws es me s ≡ true
        → Returns (repropose env fuel locked s) (Inv env ws es me)
    unfolding repropose propose_unchecked
    repropose-Inv none s v here led = v
    repropose-Inv (some l) s v here led =
        Returns-mono (Keeps env ws es me g s) (Inv env ws es me) _
          (send-Keeps env ws es me g (feed_message env fuel) fuel handles
            (env.block_digest l.block.content) (ConsensusMessageBody.proposal l.block_proposal) s v
            (ground arith) (here, led))
          (λ t (w, _). w)

    reset-Inv : (s : Consensus B P) → Rest s → Returns (reset env fuel s) (Inv env ws es me)
    unfolding reset is_leader
    reset-Inv s r =
        let t = blank s in
        let I = Inv env ws es me in
        let v : Inv env ws es me t = blank-Inv s r in
        let (l, led) = leader-done env ws es me g t v.fixed in
        Returns-step I (is_leader env t) _ {a = s.pkey == l} (rw led refl) (
          Returns-bind I I (if s.pkey == l then repropose env fuel t.locked_round t else done t) _
            (Returns-if I (s.pkey == l) _ (done t)
              (λ mine. repropose-Inv t.locked_round t v refl (ground (arith, led))) (λ _. v))
            (λ u w.
              Returns-mono (Keeps env ws es me g u) I _
                (process_inbox-Keeps env ws es me g (feed_message env fuel) fuel handles u w
                  (ground arith))
                (λ x (y, _). y)))

    due-leads :
        (s : Consensus B P)
        → Inv env ws es me s
        → should_propose env s ≡ done true
        → (s.state ≡ ConsensusState.propose) × (leads env ws es me s ≡ true)
    unfolding is_leader
    due-leads s v should =
        let (l, led) = leader-done env ws es me g s v.fixed in ground (arith, led)

    locked-Rest :
        (s : Consensus B P) (b : MacroBlock B) (p : P)
        → Inv env ws es me s
        → s.block ≡ some b
        → Rest (record s {
          block = none;
          block_proposal = none;
          precommits = [];
          locked_round = some (record { precommits = s.precommits; block = b; block_proposal = p });
        })
    locked-Rest s b p v saved = record {
      fixed = ground (arith, v.fixed);
      is_lock = ground (arith, v.signed, v.block_has, v.precommitters, v.precommits_sorted);
      others = v.others;
    }

    lock-Inv :
        (s : Consensus B P)
        → Inv env ws es me s
        → s.state ≡ ConsensusState.precommit
        → is_some s.block ≡ true
        → Returns (lock env fuel s) (Inv env ws es me)
    unfolding lock
    lock-Inv s v here saved =
        let (b, eb) = is_some-value s.block saved in
        let (p, ep) = is_some-value s.block_proposal (ground (arith, v.in_state)) in
        let I = Inv env ws es me in
        Returns-assert I (is_state s.state ConsensusState.precommit) _ (ground arith) (
          Returns-unwrap I s.block _ eb
            (Returns-unwrap I s.block_proposal _ ep (reset-Inv _ (locked-Rest s b p v eb))))

    -- With fuel 3 or more, `next_round` returns from every state but `Commit` whose block, if the
    -- state is `Precommit`, has been saved by `prevote`; it keeps the invariant.
    pub next_round-Inv :
        (s : Consensus B P)
        → Inv env ws es me s
        → s.state ≢ ConsensusState.commit
        → (s.state ≡ ConsensusState.precommit → is_some s.block ≡ true)
        → Returns (next_round env fuel s) (Inv env ws es me)
    unfolding next_round
    next_round-Inv s v open? saved =
        let t = record s { round = (s.round + 1) % 2 ^ 32 } in
        let w : Inv env ws es me t = ground (arith, v) in
        let I = Inv env ws es me in
        Returns-assert I (not (is_state s.state ConsensusState.commit)) _ (ground arith) (
          Returns-if I (is_state t.state ConsensusState.precommit) (lock env fuel t)
            (reset env fuel t) (λ here. lock-Inv t w (ground arith) (saved (ground arith)))
            (λ _. reset-Inv t (record { fixed = w.fixed; is_lock = w.is_lock; others = w.others })))

    -- With fuel 3 or more, a `reset` returns and keeps the invariant.
    pub reset_keeps :
        (s : Consensus B P) → Inv env ws es me s → Returns (reset env fuel s) (Inv env ws es me)
    reset_keeps s v =
        reset-Inv s (record { fixed = v.fixed; is_lock = v.is_lock; others = v.others })

    -- With fuel 3 or more, a prevote for the proposed block, when one is due, returns and keeps the
    -- invariant.
    pub vote-Inv :
        (block : MacroBlock B) (s : Consensus B P)
        → Inv env ws es me s
        → should_prevote env s ≡ true
        → s.block_hash ≡ some (env.block_digest block.content)
        → Returns (vote env fuel block s) (Inv env ws es me)
    unfolding vote
    vote-Inv block s v should hashed =
        Returns-mono (Keeps env ws es me g s) (Inv env ws es me) _
          (prevote-Keeps env ws es me g (feed_message env fuel) fuel handles block s v
            (ground arith) should hashed)
          (λ t (w, _). w)

    -- With fuel 3 or more, a proposal, when one is due, returns and keeps the invariant.
    pub propose-Inv :
        (h : Hash) (p : P) (s : Consensus B P)
        → Inv env ws es me s
        → should_propose env s ≡ done true
        → Returns (propose env fuel h p s) (Inv env ws es me)
    unfolding propose propose_unchecked is_leader
    propose-Inv h p s v should =
        let I = Inv env ws es me in
        Returns-step I (should_propose env s) _ should (
          Returns-assert I true _ refl (
            Returns-mono (Keeps env ws es me g s) I _
              (send-Keeps env ws es me g (feed_message env fuel) fuel handles h
                (ConsensusMessageBody.proposal p) s v (ground arith) (due-leads s v should))
              (λ t (w, _). w)))
