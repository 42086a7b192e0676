-- ===== src/Consensus/Feed.antt =====
-- consensus/src/state.rs: `feed_message` and what it calls. The handlers call `feed_message` again;
-- `again` stands for that call, and the fuel of `feed_message` bounds how deep such calls nest.
use stegos.Prelude.{
  is_empty, ℕ, zero, suc, Bool, true, false, not, ◌&&◌, Option, none, some, List, [], ◌∷◌, ◌++◌,
  ltb, ◌==◌, is_some, if◌then◌else◌, Outcome, done, panicked, out_of_fuel, ◌>>=◌, ◌>>◌, assert,
  unwrap, Result, ok, err,
}
use stegos.Prelude.Int.{ℤ, pos, ◌+i64◌}
use stegos.Prelude.Order.{nat_ord}
use stegos.BtreeMap
use stegos.BtreeMap.{BtreeMap, lookup, contains_key}
use stegos.Crypto.{Hash, PublicKey, Signature}
use stegos.Election.{select_leader}
use stegos.Multisignature.{check_supermajority}
use stegos.Consensus.State.{
  ConsensusState, is_state, ordinal, ConsensusMessageBody, name, ConsensusMessage, ConsensusError,
  MacroBlock, LockedRound, Consensus, Env, new_message, validate,
}
use stegos.Consensus.State.ConsensusError.{
  unknown_message_peer, invalid_message_signature, invalid_request_hash, invalid_message,
  proposal_from_non_leader, invalid_request_signature,
}

abbrev pub Verdict : Type 0
Verdict = Result ConsensusError (Unit {0})

-- The match on the body of a message and the state.
pub data Transition : Type 0 where
  accept early unexpected : Transition

unfoldable pub transition : {P : Type 0} → ConsensusMessageBody P → ConsensusState → Transition
transition (ConsensusMessageBody.proposal p) ConsensusState.propose = Transition.accept
transition ConsensusMessageBody.prevote ConsensusState.prevote = Transition.accept
transition (ConsensusMessageBody.precommit sig) ConsensusState.precommit = Transition.accept
transition (ConsensusMessageBody.precommit sig) ConsensusState.prevote = Transition.accept
transition ConsensusMessageBody.prevote ConsensusState.precommit = Transition.accept
transition (ConsensusMessageBody.precommit sig) ConsensusState.commit = Transition.accept
transition _ ConsensusState.propose = Transition.early
transition _ _ = Transition.unexpected

-- The loop of `check_supermajority`.
unfoldable pub sum_votes : BtreeMap PublicKey ℤ → ℤ → BtreeMap PublicKey Signature → Outcome ℤ
sum_votes validators stake [] = done stake
sum_votes validators stake ((pk, sig) ∷ accepts) = do
  slots ← unwrap (lookup pk validators)
  sum_votes validators (stake +i64 slots) accepts

unfoldable pub has_supermajority :
    {B P : Type 0} → Consensus B P → BtreeMap PublicKey Signature → Outcome Bool
has_supermajority s accepts = do
  stake ← sum_votes s.validators (pos 0) accepts
  check_supermajority stake s.total_slots

module _ {B P : Type 0} (env : Env B P) where
  -- `leader`
  abbrev pub leader : Consensus B P → Outcome PublicKey
  leader s = select_leader env.mix s.election_result s.round

  unfoldable pub is_leader : Consensus B P → Outcome Bool
  is_leader s = do l ← leader s; done (s.pkey == l)

  abbrev pub should_prevote : Consensus B P → Bool
  should_prevote s = not (ltb (ordinal s.state) 1) && not (contains_key s.pkey s.prevotes)

  -- A message of this node, in the current epoch and round.
  abbrev pub own_message : Consensus B P → Hash → ConsensusMessageBody P → ConsensusMessage P
  own_message s block_hash body = new_message env s.epoch s.round block_hash s.skey s.pkey body

  -- The test in `prevote`: `||` looks at the proposals only if the block is the locked one.
  abbrev pub differs_from_lock : Hash → Option (LockedRound B P) → Option P → Outcome Bool
  differs_from_lock block_hash none block_proposal = done false
  differs_from_lock block_hash (some locked) block_proposal =
      if not (block_hash == env.block_digest locked.block.content) then done true else (do
        p ← unwrap block_proposal
        done (not (env.proposal_digest locked.block_proposal == env.proposal_digest p)))

  -- `again` is `feed_message`.
  module _ (again : ConsensusMessage P → Consensus B P → Outcome (Consensus B P × Verdict)) where
    -- `self.outbox.push(msg.clone()); self.feed_message(msg).expect("message is valid")`
    unfoldable pub send : ConsensusMessage P → Consensus B P → Outcome (Consensus B P)
    send msg s = do
      (t, verdict) ← again msg (record s { outbox = s.outbox ++ msg ∷ [] })
      elim verdict [ ok _ ↦ done t | err e ↦ panicked ]

    unfoldable pub propose_unchecked : Hash → P → Consensus B P → Outcome (Consensus B P)
    propose_unchecked block_hash block_proposal s =
        send (own_message s block_hash (ConsensusMessageBody.proposal block_proposal)) s

    unfoldable pub prevote : MacroBlock B → Consensus B P → Outcome (Consensus B P)
    prevote block s = do
      assert (should_prevote s)
      let block_hash = env.block_digest block.content
      expected ← unwrap s.block_hash
      assert (block_hash == expected)
      let t = record s { block = some block }
      differs ← differs_from_lock block_hash t.locked_round t.block_proposal
      if differs then done t else send (own_message t block_hash ConsensusMessageBody.prevote) t

    unfoldable pub precommit : Consensus B P → Outcome (Consensus B P)
    precommit s = do
      assert (is_state s.state ConsensusState.precommit)
      assert (is_some s.block)
      block_hash ← unwrap s.block_hash
      let block_hash_sig = env.signing.sign_hash block_hash s.skey
      send (own_message s block_hash (ConsensusMessageBody.precommit block_hash_sig)) s

    -- The loop of `process_inbox`; an error is logged, and the loop goes on.
    unfoldable pub feed_all : List (ConsensusMessage P) → Consensus B P → Outcome (Consensus B P)
    feed_all [] s = done s
    feed_all (msg ∷ inbox) s = do (t, _) ← again msg s; feed_all inbox t

    unfoldable pub process_inbox : Consensus B P → Outcome (Consensus B P)
    process_inbox s = feed_all s.inbox (record s { inbox = [] })

    -- A proposal that looks like the locked one takes up the lock and repeats the vote.
    unfoldable pub adopt_lock :
        Option (LockedRound B P) → Hash → P → Consensus B P → Outcome (Consensus B P)
    adopt_lock none block_hash block_proposal s = done s
    adopt_lock (some locked) block_hash block_proposal s =
        if (block_hash == env.block_digest locked.block.content)
          && (env.proposal_digest locked.block_proposal == env.proposal_digest block_proposal)
        then prevote locked.block (record s { locked_round = none; precommits = locked.precommits })
        else done s

    unfoldable pub accept_proposal :
        ConsensusMessage P → P → Consensus B P → Outcome (Consensus B P × Verdict)
    accept_proposal msg block_proposal s = do
      l ← leader s
      if not (msg.pkey == l)
          then done (s, err (proposal_from_non_leader msg.block_hash l msg.pkey))
          else (do
            assert (is_empty s.prevotes)
            assert (not (is_some s.block_hash))
            assert (not (is_some s.block_proposal))
            t ← adopt_lock s.locked_round msg.block_hash block_proposal (record s {
              state = ConsensusState.prevote;
              block = none;
              block_hash = some msg.block_hash;
              block_proposal = some block_proposal;
            })
            u ← process_inbox t
            done (u, ok tt))

    unfoldable pub accept_precommit :
        ConsensusMessage P → Signature → Consensus B P → Outcome (Consensus B P × Verdict)
    accept_precommit msg block_hash_sig s = do
      block_hash ← unwrap s.block_hash
      done (
          if not (env.signing.check_hash block_hash block_hash_sig msg.pkey)
          then (s, err (invalid_request_signature block_hash))
          else (
            record s { precommits = BtreeMap.insert msg.pkey block_hash_sig s.precommits },
            ok tt,
          ))

    -- `match msg.body`
    unfoldable pub process_body :
        ConsensusMessage P
        → ConsensusMessageBody P
        → Consensus B P
        → Outcome (Consensus B P × Verdict)
    process_body msg (ConsensusMessageBody.proposal block_proposal) s = do
      assert (is_state s.state ConsensusState.propose)
      accept_proposal msg block_proposal s
    process_body msg ConsensusMessageBody.prevote s = do
      assert (not (is_state s.state ConsensusState.propose))
      done (record s { prevotes = BtreeMap.insert msg.pkey msg.sig s.prevotes }, ok tt)
    process_body msg (ConsensusMessageBody.precommit block_hash_sig) s = do
      assert (not (is_state s.state ConsensusState.propose))
      accept_precommit msg block_hash_sig s

    -- The end of `feed_message`: a supermajority of votes moves the state on.
    unfoldable pub advance : ConsensusState → Consensus B P → Outcome (Consensus B P)
    advance ConsensusState.prevote s = do
      super_majority ← has_supermajority s s.prevotes
      let t = record s { state = ConsensusState.precommit }
      if not super_majority
          then done s
          else (if contains_key t.pkey t.prevotes then precommit t else done t)
    advance ConsensusState.precommit s = do
      super_majority ← has_supermajority s s.precommits
      done (if super_majority then record s { state = ConsensusState.commit } else s)
    advance _ s = done s

    unfoldable pub process_message :
        ConsensusMessage P → Consensus B P → Outcome (Consensus B P × Verdict)
    process_message msg s = do
      (t, verdict) ← process_body msg msg.body s
      elim verdict [ err e ↦ done (t, err e) | ok _ ↦ do u ← advance t.state t; done (u, ok tt) ]

    -- From the check of the transition on.
    unfoldable pub check_transition :
        ConsensusMessage P → Consensus B P → Outcome (Consensus B P × Verdict)
    check_transition msg s = elim (transition msg.body s.state) [
      | Transition.accept ↦ process_message msg s
      | Transition.early ↦ done (record s { inbox = s.inbox ++ msg ∷ [] }, ok tt)
      | Transition.unexpected ↦ done (s, err (invalid_message s.state (name msg.body)))
    ]

    -- The check of the hash, which the state `Propose` does not make.
    unfoldable pub check_block_hash :
        ConsensusMessage P → Consensus B P → Outcome (Consensus B P × Verdict)
    check_block_hash msg s =
        if is_state s.state ConsensusState.propose then check_transition msg s else (do
          expected_block_hash ← unwrap s.block_hash
          if not (expected_block_hash == msg.block_hash)
              then done (s, err (invalid_request_hash expected_block_hash msg.block_hash msg.pkey))
              else (if is_state s.state ConsensusState.commit
                  then done (s, ok tt)
                  else check_transition msg s))

    -- The whole of `feed_message`, from its first check on.
    unfoldable pub receive : ConsensusMessage P → Consensus B P → Outcome (Consensus B P × Verdict)
    receive msg s =
        if not (validate env msg)
        then done (s, err invalid_message_signature)
        else (if not (contains_key msg.pkey s.validators)
            then done (s, err (unknown_message_peer msg.pkey))
            else (if not (msg.epoch == s.epoch)
                then done (s, ok tt)
                else (if ltb msg.round s.round
                    then done (s, ok tt)
                    else (if ltb s.round msg.round
                        then done (record s { inbox = s.inbox ++ msg ∷ [] }, ok tt)
                        else check_block_hash msg s))))

  unfoldable pub feed_message :
      ℕ → ConsensusMessage P → Consensus B P → Outcome (Consensus B P × Verdict)
  feed_message zero msg s = out_of_fuel
  feed_message (suc fuel) msg s = receive (feed_message fuel) msg s
