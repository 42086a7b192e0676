-- ===== src/Tests/Round.antt =====
-- A round of the protocol: validators 2 and 3 hear a proposal, vote, and commit.
use stegos.Prelude.{
  ℕ, ◌*◌, ◌≡◌, ◌≢◌, refl, true, List, [], ◌∷◌, arith, done, ok, none, some, is_some,
}
use stegos.Prelude.Int.{pos, i64, ◌+i64◌, ◌+ℤ◌}
use stegos.Prelude.Order.{nat_ord}
use stegos.BtreeMap.{lookup, insert, contains_key}
use stegos.Crypto.{PublicKey, SecretKey, Signature}
use stegos.Consensus.State.{ConsensusState, ConsensusMessageBody, ConsensusMessage, Consensus}
use stegos.Consensus.Feed
use stegos.Consensus.Feed.{
  transition, sum_votes, has_supermajority, send, precommit, feed_all, process_inbox, adopt_lock,
  accept_proposal, accept_precommit, process_body, advance, process_message, check_transition,
  check_block_hash, receive, feed_message, is_leader, propose_unchecked, Verdict, should_prevote,
}
use stegos.Consensus.Rounds.{new, vote}
use stegos.Consensus.Agreement.{Step, Reach, Reach-Inv}
use stegos.Consensus.Rounds.{should_propose}
use stegos.Consensus.Invariant.{Inv}
use stegos.Tests.Network.{world, toy-IsSound, group, group-IsGroup, elected, from, block_7}
use stegos.Election.{
  abs_or_zero, select_leader, select_winner, winner_loop, sum_stakes, generate_u64, shrink_hash,
}
use stegos.Election.Winner.{slots}
use stegos.Multisignature.{check_supermajority}

abbrev pub Node : Type 0
Node = Consensus ℕ ℕ

abbrev pub Votes : Type 0
Votes = List (PublicKey × Signature)

abbrev pub start : SecretKey → Node
start me = record {
  skey = me;
  pkey = me;
  validators = slots group;
  total_slots = pos 4;
  epoch = 0;
  election_result = elected;
  state = ConsensusState.propose;
  round = 0;
  block = none;
  block_hash = none;
  block_proposal = none;
  locked_round = none;
  prevotes = [];
  precommits = [];
  inbox = [];
  outbox = [];
}

abbrev pub proposed : SecretKey → Node
proposed me = record (start me) {
  state = ConsensusState.prevote;
  block_hash = some 7;
  block_proposal = some 7;
}

abbrev pub own_prevote : SecretKey → ConsensusMessage ℕ
own_prevote me = from me ConsensusMessageBody.prevote

abbrev pub voted : SecretKey → Votes → Node
voted me prevotes = record (proposed me) {
  block = some block_7;
  prevotes = prevotes;
  outbox = own_prevote me ∷ [];
}

abbrev pub precommitted : SecretKey → ConsensusState → Votes → Node
precommitted me state precommits = record (voted me ((1, 8) ∷ (me, 8 * me) ∷ (4, 32) ∷ [])) {
  state = state;
  precommits = precommits;
  outbox = own_prevote me ∷ from me (ConsensusMessageBody.precommit (7 * me)) ∷ [];
}

abbrev pub prevoted : SecretKey → Node
prevoted me = precommitted me ConsensusState.precommit ((me, 7 * me) ∷ [])

abbrev pub committed : SecretKey → Node
committed me = precommitted me ConsensusState.commit ((1, 7) ∷ (me, 7 * me) ∷ (4, 28) ∷ [])

-- The calls of the round return, and end in `Commit` with the block.
abbrev pub IsJourney : SecretKey → Type 0
IsJourney me =
    (new world 0 me me elected (slots group) ≡ done (start me))
    × (feed_message world 3 (from 1 (ConsensusMessageBody.proposal 7)) (start me)
        ≡ done (proposed me, ok tt))
    × (should_prevote world (proposed me) ≡ true)
    × ((proposed me).block_hash ≡ some 7)
    × (vote world 3 block_7 (proposed me) ≡ done (voted me ((me, 8 * me) ∷ [])))
    × (feed_message world 3 (from 1 ConsensusMessageBody.prevote) (voted me ((me, 8 * me) ∷ []))
        ≡ done (voted me ((1, 8) ∷ (me, 8 * me) ∷ []), ok tt))
    × (feed_message world 3 (from 4 ConsensusMessageBody.prevote)
          (voted me ((1, 8) ∷ (me, 8 * me) ∷ []))
        ≡ done (prevoted me, ok tt))
    × (feed_message world 3 (from 1 (ConsensusMessageBody.precommit 7)) (prevoted me)
        ≡ done (precommitted me ConsensusState.precommit ((1, 7) ∷ (me, 7 * me) ∷ []), ok tt))
    × (feed_message world 3 (from 4 (ConsensusMessageBody.precommit 28))
          (precommitted me ConsensusState.precommit ((1, 7) ∷ (me, 7 * me) ∷ []))
        ≡ done (committed me, ok tt))
    × ((committed me).state ≡ ConsensusState.commit)
    × (is_some (committed me).block ≡ true)

pub IsJourney-2 : IsJourney 2
unfolding new lookup insert transition sum_votes has_supermajority send precommit feed_all
    process_inbox adopt_lock accept_proposal accept_precommit process_body advance process_message
    check_transition check_block_hash receive feed_message vote Feed.prevote is_leader select_leader
    select_winner winner_loop sum_stakes generate_u64 shrink_hash check_supermajority abs_or_zero
    i64 ◌+i64◌ ◌+ℤ◌
IsJourney-2 = (refl, refl, refl, refl, refl, refl, refl, refl, refl, refl, refl)

IsJourney-3 : IsJourney 3
unfolding new lookup insert transition sum_votes has_supermajority send precommit feed_all
    process_inbox adopt_lock accept_proposal accept_precommit process_body advance process_message
    check_transition check_block_hash receive feed_message vote Feed.prevote is_leader select_leader
    select_winner winner_loop sum_stakes generate_u64 shrink_hash check_supermajority abs_or_zero
    i64 ◌+i64◌ ◌+ℤ◌
IsJourney-3 = (refl, refl, refl, refl, refl, refl, refl, refl, refl, refl, refl)

-- The state before the last message, and the state at the end, are reached.
pub Reach-prevoted :
    (me : SecretKey)
    → contains_key me group ≡ true
    → 1 ≢ me
    → 4 ≢ me
    → IsJourney me
    → Reach world group group me (prevoted me)
Reach-prevoted me member o1 o4 (a, b, c, d, e, f, h, _, _, _, _) =
    Reach.steps
      (Reach.steps
        (Reach.steps
          (Reach.steps (Reach.starts 0 elected member refl a)
            (Step.receives (from 1 (ConsensusMessageBody.proposal 7)) (ok tt) o1 b))
          (Step.votes block_7 c d e))
        (Step.receives (from 1 ConsensusMessageBody.prevote) (ok tt) o1 f))
      (Step.receives (from 4 ConsensusMessageBody.prevote) (ok tt) o4 h)

Reach-committed :
    (me : SecretKey)
    → contains_key me group ≡ true
    → 1 ≢ me
    → 4 ≢ me
    → IsJourney me
    → Reach world group group me (committed me)
Reach-committed me member o1 o4 j =
    Reach.steps
      (Reach.steps (Reach-prevoted me member o1 o4 j)
        (Step.receives (from 1 (ConsensusMessageBody.precommit 7)) (ok tt) o1 j.7))
      (Step.receives (from 4 (ConsensusMessageBody.precommit 28)) (ok tt) o4 j.8)

pub member_2 : contains_key 2 group ≡ true
unfolding lookup
member_2 = refl

member_3 : contains_key 3 group ≡ true
unfolding lookup
member_3 = refl

pub Reach-2 : Reach world group group 2 (committed 2)
Reach-2 = Reach-committed 2 member_2 (omega arith) (omega arith) IsJourney-2

pub Reach-3 : Reach world group group 3 (committed 3)
Reach-3 = Reach-committed 3 member_3 (omega arith) (omega arith) IsJourney-3

-- Validator 2 has voted, and has heard one prevote.
abbrev pub heard : Node
heard = voted 2 ((1, 8) ∷ (2, 16) ∷ [])

pub Reach-heard : Reach world group group 2 heard
Reach-heard =
    let (a, b, c, d, e, f, _, _, _, _, _) = IsJourney-2 in
    Reach.steps
      (Reach.steps
        (Reach.steps (Reach.starts 0 elected member_2 refl a)
          (Step.receives (from 1 (ConsensusMessageBody.proposal 7)) (ok tt) (omega arith) b))
        (Step.votes block_7 c d e))
      (Step.receives (from 1 ConsensusMessageBody.prevote) (ok tt) (omega arith) f)

pub Reach-proposed : Reach world group group 2 (proposed 2)
Reach-proposed =
    Reach.steps (Reach.starts 0 elected member_2 refl IsJourney-2.0)
      (Step.receives (from 1 (ConsensusMessageBody.proposal 7)) (ok tt) (omega arith) IsJourney-2.1)

pub precommit_is_open : ConsensusState.precommit ≢ ConsensusState.commit
precommit_is_open e = ground arith

-- The leader.
pub leader_starts :
    (contains_key 1 group ≡ true)
    × (new world 0 1 1 elected (slots group) ≡ done (start 1))
    × (should_propose world (start 1) ≡ done true)
unfolding new lookup insert transition sum_votes has_supermajority send precommit feed_all
    process_inbox adopt_lock accept_proposal accept_precommit process_body advance process_message
    check_transition check_block_hash receive feed_message vote Feed.prevote is_leader select_leader
    select_winner winner_loop sum_stakes generate_u64 shrink_hash check_supermajority abs_or_zero
    i64 ◌+i64◌ ◌+ℤ◌
leader_starts = (refl, refl, refl)

pub inv : (me : SecretKey) {s : Node} → Reach world group group me s → Inv world group group me s
inv me r = Reach-Inv world toy-IsSound group group group-IsGroup me r

-- Validator 2 has the votes of two others, and not yet the block.
abbrev pub waiting : Votes → Node
waiting prevotes = record (proposed 2) { prevotes = prevotes }

others_vote :
    (feed_message world 3 (from 1 ConsensusMessageBody.prevote) (proposed 2)
      ≡ done (waiting ((1, 8) ∷ []), ok tt))
    × (feed_message world 3 (from 4 ConsensusMessageBody.prevote) (waiting ((1, 8) ∷ []))
        ≡ done (waiting ((1, 8) ∷ (4, 32) ∷ []), ok tt))
unfolding lookup insert transition sum_votes has_supermajority process_body advance process_message
    check_transition check_block_hash receive feed_message check_supermajority i64 ◌+i64◌ ◌+ℤ◌
others_vote = (refl, refl)

pub Reach-waiting : Reach world group group 2 (waiting ((1, 8) ∷ (4, 32) ∷ []))
Reach-waiting =
    Reach.steps
      (Reach.steps Reach-proposed
        (Step.receives (from 1 ConsensusMessageBody.prevote) (ok tt) (omega arith) others_vote.0))
      (Step.receives (from 4 ConsensusMessageBody.prevote) (ok tt) (omega arith) others_vote.1)
