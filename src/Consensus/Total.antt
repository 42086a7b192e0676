-- ===== src/Consensus/Total.antt =====
-- About `feed_message` as a whole, with its fuel.
use stegos.Prelude.{
  ℕ, zero, suc, ◌≤◌, ◌≡◌, ◌≢◌, inl, inr, refl, true, some, List, [], ◌∷◌, ◌++◌, arith, All-append,
  ◌==◌, done, Returns, Returns-mono, Returns-unwrap, Returns-if, is_some-value, ltb, not,
}
use stegos.Prelude.Order.{nat_ord}
use stegos.BtreeMap.{contains_key}
use stegos.Crypto.{PublicKey, SecretKey, IsSound}
use stegos.Consensus.State.{ConsensusState, is_state, ConsensusMessage, Consensus, Env, validate}
use stegos.Consensus.Feed.{
  Transition, transition, check_transition, check_block_hash, receive, feed_message,
}
use stegos.Consensus.Votes.{Slots, contains_key-slots}
use stegos.Consensus.Invariant.{IsGroup, depth, Inv, Own, Allowed, Post}
use stegos.Consensus.Handlers.{Again, Handles}
use stegos.Consensus.Receive.{process_message-Post}

module _ {B P : Type 0} (env : Env B P) (sound : IsSound env.signing) (ws : Slots)
    (es : List (PublicKey × ℕ)) (me : SecretKey) (g : IsGroup ws es) where
  queued-Inv :
      (msg : ConsensusMessage P) (s : Consensus B P)
      → Inv env ws es me s
      → msg.pkey ≢ env.signing.public_key me
      → Inv env ws es me (record s { inbox = s.inbox ++ msg ∷ [] })
  queued-Inv msg s v other =
      let others =
        All-append (λ m. m.pkey ≢ env.signing.public_key me) s.inbox (msg ∷ []) v.others
          (other, tt) in
      ground (arith, others)

  Own-accept :
      (msg : ConsensusMessage P) (s : Consensus B P)
      → Own env ws es me msg s
      → s.state ≢ ConsensusState.commit
      → transition msg.body s.state ≡ Transition.accept
  unfolding transition
  Own-accept msg s own open? = ground (arith, own.suits)

  Own-pkey :
      (msg : ConsensusMessage P) (s : Consensus B P)
      → Own env ws es me msg s
      → (msg.pkey ≡ s.pkey) × (msg.epoch ≡ s.epoch) × (msg.round ≡ s.round)
  Own-pkey msg s own = ground (arith, own.made)

  Own-valid :
      (msg : ConsensusMessage P) (s : Consensus B P)
      → Inv env ws es me s
      → Own env ws es me msg s
      → validate env msg ≡ true
  Own-valid msg s v own =
      let h = env.message_digest s.epoch s.round msg.block_hash msg.body in
      ground (arith, own.made, v.fixed, sound.check_sign h me)

  Own-hash :
      (msg : ConsensusMessage P) (s : Consensus B P)
      → Own env ws es me msg s
      → s.state ≢ ConsensusState.propose
      → s.block_hash ≡ some msg.block_hash
  Own-hash msg s own ne = ground (arith, own.suits)

  module _ (again : Again env ws es me g) (n : ℕ) (handles : Handles env ws es me g again n) where
    abbrev Known : ConsensusMessage P → Consensus B P → Type 0
    Known msg s =
        Inv env ws es me s
        × (depth s.state ≤ suc n)
        × Allowed env ws es me msg s
        × (contains_key msg.pkey ws ≡ true)

    check_transition-Post :
        (msg : ConsensusMessage P) (s : Consensus B P) (tr : Transition)
        → transition msg.body s.state ≡ tr
        → Known msg s
        → ((s.state ≢ ConsensusState.propose) → s.block_hash ≡ some msg.block_hash)
        → s.state ≢ ConsensusState.commit
        → Returns (check_transition env again msg s) (Post env ws es me msg s)
    unfolding check_transition
    check_transition-Post msg s Transition.accept e (v, d, al, k) hashed open? =
        rw (e, check_transition)
          (process_message-Post env sound ws es me g again n handles msg s (record {
            valid = v;
            room = d;
            allowed = al;
            voter = k;
            accepted = e;
            same_hash = hashed;
            unfinished = open?;
          }))
    check_transition-Post msg s Transition.early e (v, d, al, k) hashed open? = elim al [
      | inl other ↦ rw (e, check_transition) (queued-Inv msg s v other, omega arith, λ _. refl)
      | inr own ↦ absurd (ground (arith, Own-accept msg s own open?))
    ]
    check_transition-Post msg s Transition.unexpected e (v, d, al, k) hashed open? =
        rw (e, check_transition)
          (v, omega arith, λ own. absurd (ground (arith, Own-accept msg s own open?)))

    check_block_hash-Post :
        (msg : ConsensusMessage P) (s : Consensus B P)
        → Known msg s
        → Returns (check_block_hash env again msg s) (Post env ws es me msg s)
    unfolding check_block_hash
    check_block_hash-Post msg s (v, d, al, k) =
        let Q = Post env ws es me msg s in
        let tr = transition msg.body s.state in
        Returns-if Q (is_state s.state ConsensusState.propose) (check_transition env again msg s) _
          (λ here.
            check_transition-Post msg s tr refl (v, d, al, k) (λ ne. absurd (ne (ground arith)))
              (ground arith))
          (λ later.
            let ne : s.state ≢ ConsensusState.propose = ground arith in
            let (h, hashed) = is_some-value s.block_hash (ground (arith, v.in_state)) in
            Returns-unwrap Q s.block_hash _ hashed (
              Returns-if Q (not (h == msg.block_hash)) (done _) _
                (λ other. (v, omega arith, λ own. absurd (ground (arith, Own-hash msg s own ne))))
                (λ same.
                  Returns-if Q (is_state s.state ConsensusState.commit) (done _)
                    (check_transition env again msg s) (λ _. (v, omega arith, λ _. refl))
                    (λ open?.
                      check_transition-Post msg s tr refl (v, d, al, k) (λ _. ground arith)
                        (ground arith)))))

    receive-Post :
        (msg : ConsensusMessage P) (s : Consensus B P)
        → Inv env ws es me s
        → depth s.state ≤ suc n
        → Allowed env ws es me msg s
        → Returns (receive env again msg s) (Post env ws es me msg s)
    unfolding receive
    receive-Post msg s v d al =
        let Q = Post env ws es me msg s in
        let same = Own-pkey msg s in
        Returns-if Q (not (validate env msg)) (done _) _
          (λ bad. (v, omega arith, λ own. absurd (ground (arith, Own-valid msg s v own))))
          (λ _.
            Returns-if Q (not (contains_key msg.pkey s.validators)) (done _) _
              (λ stranger. (
                v,
                omega arith,
                λ own. absurd (ground (arith, same own, v.fixed, contains_key-slots msg.pkey ws)),
              ))
              (λ voter.
                Returns-if Q (not (msg.epoch == s.epoch)) (done _) _
                  (λ _. (v, omega arith, λ _. refl))
                  (λ _.
                    Returns-if Q (ltb msg.round s.round) (done _) _
                      (λ _. (v, omega arith, λ _. refl))
                      (λ _.
                        Returns-if Q (ltb s.round msg.round) (done _) _
                          (λ future. elim al [
                            | inl other ↦ (queued-Inv msg s v other, omega arith, λ _. refl)
                            | inr own ↦ absurd (ground (arith, same own))
                          ])
                          (λ _.
                            check_block_hash-Post msg s (
                              v,
                              d,
                              al,
                              ground (arith, v.fixed, contains_key-slots msg.pkey ws),
                            ))))))

  -- Fuel for the depth of the state is enough.
  pub feed_message-Handles : (fuel : ℕ) → Handles env ws es me g (feed_message env fuel) fuel
  unfolding feed_message
  feed_message-Handles zero msg s v d al = absurd (ground arith)
  feed_message-Handles (suc fuel) msg s v d al =
      receive-Post (feed_message env fuel) fuel (feed_message-Handles fuel) msg s v d al

  -- With fuel 3 or more, `feed_message` returns on every message that another key has sent: it
  -- does not panic and does not run out of fuel. It keeps the invariant, and never moves the state
  -- back.
  pub feed_message-Inv :
      (fuel : ℕ) (msg : ConsensusMessage P) (s : Consensus B P)
      → 3 ≤ fuel
      → Inv env ws es me s
      → msg.pkey ≢ env.signing.public_key me
      → Returns
          (feed_message env fuel msg s)
          (λ r. Inv env ws es me r.0 × (depth r.0.state ≤ depth s.state))
  feed_message-Inv fuel msg s enough v other =
      Returns-mono (Post env ws es me msg s) _ (feed_message env fuel msg s)
        (feed_message-Handles fuel msg s v (ground arith) (inl other)) (λ r (w, le, _). (w, le))
