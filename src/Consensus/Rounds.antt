-- ===== src/Consensus/Rounds.antt =====
-- consensus/src/state.rs: the start of the protocol, the rounds, and the calls of the node.
-- `fuel` is handed to `feed_message`.
use stegos.Prelude.{
  ℕ, ◌+◌, ◌%◌, ◌^◌, Bool, false, not, ◌&&◌, Option, none, some, [], is_some, map, if◌then◌else◌,
  Outcome, done, ◌>>=◌, ◌>>◌, assert, unwrap,
}
use stegos.Prelude.Int.{ℤ}
use stegos.Prelude.Order.{nat_ord}
use stegos.BtreeMap.{BtreeMap, contains_key}
use stegos.Crypto.{Hash, PublicKey, SecretKey}
use stegos.Election.{ElectionResult, sum_stakes}
use stegos.Multisignature.{create_multi_signature}
use stegos.Consensus.State.{ConsensusState, is_state, MacroBlock, LockedRound, Consensus, Env}
use stegos.Consensus.Feed.{is_leader, propose_unchecked, process_inbox, feed_message}
use stegos.Consensus.Feed

module _ {B P : Type 0} (env : Env B P) where
  unfoldable pub new :
      ℕ → SecretKey → PublicKey → ElectionResult → BtreeMap PublicKey ℤ → Outcome (Consensus B P)
  new epoch skey pkey election_result validators = do
    assert (contains_key pkey validators)
    done (record {
      skey = skey;
      pkey = pkey;
      validators = validators;
      total_slots = sum_stakes (map (λ v. v.1) validators);
      epoch = epoch;
      election_result = election_result;
      state = ConsensusState.propose;
      round = 0;
      block = none;
      block_hash = none;
      block_proposal = none;
      locked_round = none;
      prevotes = [];
      precommits = [];
      inbox = [];
      outbox = [];
    })

  abbrev pub should_propose : Consensus B P → Outcome Bool
  should_propose s =
      if not (is_state s.state ConsensusState.propose)
      then done false
      else (do led ← is_leader env s; done (led && not (is_some s.locked_round)))

  abbrev pub should_commit : Consensus B P → Bool
  should_commit s = is_state s.state ConsensusState.commit

  unfoldable pub get_proposal : Consensus B P → Outcome (Hash × P × ℕ)
  get_proposal s = do
    assert (not (is_state s.state ConsensusState.propose))
    block_hash ← unwrap s.block_hash
    block_proposal ← unwrap s.block_proposal
    done (block_hash, block_proposal, s.round)

  module _ (fuel : ℕ) where
    -- A leader proposes the locked block again.
    unfoldable pub repropose : Option (LockedRound B P) → Consensus B P → Outcome (Consensus B P)
    repropose none s = done s
    repropose (some locked) s =
        propose_unchecked env (feed_message env fuel) (env.block_digest locked.block.content)
          locked.block_proposal s

    unfoldable pub reset : Consensus B P → Outcome (Consensus B P)
    reset s = do
      let t = record s {
        state = ConsensusState.propose;
        prevotes = [];
        precommits = [];
        block = none;
        block_hash = none;
        block_proposal = none;
        outbox = [];
      }
      led ← is_leader env t
      u ← if led then repropose t.locked_round t else done t
      process_inbox env (feed_message env fuel) u

    unfoldable pub lock : Consensus B P → Outcome (Consensus B P)
    lock s = do
      assert (is_state s.state ConsensusState.precommit)
      block ← unwrap s.block
      block_proposal ← unwrap s.block_proposal
      reset (record s {
        block = none;
        block_proposal = none;
        precommits = [];
        locked_round =
            some (record {
              precommits = s.precommits;
              block = block;
              block_proposal = block_proposal;
            });
      })

    -- The round is a `u32`.
    unfoldable pub next_round : Consensus B P → Outcome (Consensus B P)
    next_round s = do
      assert (not (is_state s.state ConsensusState.commit))
      let t = record s { round = (s.round + 1) % 2 ^ 32 }
      if is_state t.state ConsensusState.precommit then lock t else reset t

    unfoldable pub propose : Hash → P → Consensus B P → Outcome (Consensus B P)
    propose block_hash block_proposal s = do
      should ← should_propose s
      assert should
      propose_unchecked env (feed_message env fuel) block_hash block_proposal s

    -- `prevote`, as the node calls it.
    unfoldable pub vote : MacroBlock B → Consensus B P → Outcome (Consensus B P)
    vote block s = Feed.prevote env (feed_message env fuel) block s

  -- The block with the multi-signature of the collected precommits.
  unfoldable pub commit : Consensus B P → Outcome (MacroBlock B)
  commit s = do
    assert (should_commit s)
    block ← unwrap s.block
    (multisig, multisigmap) ← create_multi_signature env.signing s.validators s.precommits
    done (record block { multisig = multisig; multisigmap = multisigmap })
