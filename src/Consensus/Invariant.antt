-- ===== src/Consensus/Invariant.antt =====
-- What the state of the protocol is to have between its calls.
use stegos.Prelude.{
  length, ℕ, ◌+◌, ◌*◌, ◌^◌, ◌≤◌, ◌<◌, ◌≡◌, ◌≢◌, ◌⊎◌, ◌↔◌, Bool, ◌==◌, true, false, Option, none,
  some, List, [], arith, is_some, All, done, Returns, Returns-done, ok,
}
use stegos.Prelude.Int.{pos}
use stegos.Prelude.Order.{nat_ord}
use stegos.BtreeMap.{contains_key}
use stegos.BtreeMap.Sorted.{Sorted}
use native.Mathlib.Nat.{zero-add}
use stegos.Crypto.{Hash, PublicKey, SecretKey}
use stegos.Election.Winner.{slots, slot_counts, total, select_leader_lem}
use stegos.Multisignature.Supermajority.{check_supermajority_lem}
use stegos.Consensus.State.{
  ConsensusState, ConsensusMessageBody, ConsensusMessage, MacroBlock, LockedRound, Consensus, Env,
}
use stegos.Consensus.Feed.{Verdict, own_message, leader, has_supermajority}
use stegos.Consensus.Votes.{Slots, Votes, tally, AreVoters, sum_votes-tally, tally-le-total}

-- The slots of the validators `ws`, and of the list `es` that leaders are drawn from, have sums
-- that an `i64` holds, with room for the test of a supermajority, and a `u32` counts the validators.
pub record IsGroup (ws : Slots) (es : List (PublicKey × ℕ)) : Type 0 where
  pub some_slot : 0 < total (slot_counts ws)
  pub fits : total (slot_counts ws) + total (slot_counts ws) + 3 < 2 ^ 63
  pub some_leader : 0 < total (slot_counts es)
  pub indexed : length ws ≤ 2 ^ 32
  pub leaders_fit : total (slot_counts es) < 2 ^ 63

-- More than two thirds of the slots.
abbrev pub IsQuorum : Slots → Votes → Type 0
IsQuorum ws votes = total (slot_counts ws) * 2 < tally ws votes * 3

-- Fuel for a call in the state: a proposal leads to a prevote, and that to a precommit.
abbrev pub depth : ConsensusState → ℕ
depth ConsensusState.propose = 3
depth ConsensusState.prevote = 2
depth _ = 1

module _ {B P : Type 0} (env : Env B P) where
  -- Each vote is a valid signature of the voter over the hash.
  abbrev pub Signed : Hash → Votes → Type 0
  Signed h = All (λ v. env.signing.check_hash h v.1 v.0 ≡ true)

  abbrev pub SignedOver : Option Hash → Votes → Type 0
  SignedOver none votes = Unit
  SignedOver (some h) votes = Signed h votes

  -- The saved block is the one that is voted on.
  abbrev pub BlockHas : Option (MacroBlock B) → Option Hash → Type 0
  BlockHas none h = Unit
  BlockHas (some b) h = h ≡ some (env.block_digest b.content)

  abbrev pub IsLock : Slots → Option (LockedRound B P) → Type 0
  IsLock ws none = Unit
  IsLock ws (some l) =
      Signed (env.block_digest l.block.content) l.precommits
      × AreVoters ws l.precommits
      × Sorted l.precommits

  abbrev pub InState :
      Slots
      → ConsensusState
      → Votes
      → Votes
      → Option (MacroBlock B)
      → Option Hash
      → Option P
      → Type 0
  InState ws ConsensusState.propose prevotes precommits block block_hash block_proposal =
      (prevotes ≡ [])
      × (precommits ≡ [])
      × (block ≡ none)
      × (block_hash ≡ none)
      × (block_proposal ≡ none)
  InState ws ConsensusState.prevote prevotes precommits block block_hash block_proposal =
      (is_some block_hash ≡ true) × (is_some block_proposal ≡ true)
  InState ws ConsensusState.precommit prevotes precommits block block_hash block_proposal =
      (is_some block_hash ≡ true) × (is_some block_proposal ≡ true) × IsQuorum ws prevotes
  InState ws ConsensusState.commit prevotes precommits block block_hash block_proposal =
      (is_some block_hash ≡ true)
      × (is_some block_proposal ≡ true)
      × IsQuorum ws prevotes
      × IsQuorum ws precommits

  module _ (ws : Slots) (es : List (PublicKey × ℕ)) (me : SecretKey) where
    -- What no call changes.
    pub record IsFixed (s : Consensus B P) : Type 0 where
      pub skey_me : s.skey ≡ me
      pub pkey_me : s.pkey ≡ env.signing.public_key me
      pub member : contains_key (env.signing.public_key me) ws ≡ true
      pub group : s.validators ≡ slots ws
      pub sum : s.total_slots ≡ pos (total (slot_counts ws))
      pub leaders : s.election_result.validators ≡ slots es

    pub record Inv (s : Consensus B P) : Type 0 where
      pub fixed : IsFixed s
      pub prevoters : AreVoters ws s.prevotes
      pub prevotes_sorted : Sorted s.prevotes
      pub precommitters : AreVoters ws s.precommits
      pub precommits_sorted : Sorted s.precommits
      pub in_state :
          InState ws s.state s.prevotes s.precommits s.block s.block_hash s.block_proposal
      pub block_has : BlockHas s.block s.block_hash
      pub signed : SignedOver s.block_hash s.precommits
      pub is_lock : IsLock ws s.locked_round
      -- This node's prevote is counted only with its block saved.
      pub own_vote :
          contains_key (env.signing.public_key me) s.prevotes ≡ true → is_some s.block ≡ true
      -- No message of this node waits.
      pub others : All (λ m. m.pkey ≢ env.signing.public_key me) s.inbox

    -- The messages that this node sends to itself.
    abbrev pub Fits :
        ConsensusMessageBody P
        → Hash
        → ConsensusState
        → Bool
        → Option (MacroBlock B)
        → Option Hash
        → Type 0
    Fits (ConsensusMessageBody.proposal p) h state leads block block_hash =
        (state ≡ ConsensusState.propose) × (leads ≡ true)
    Fits ConsensusMessageBody.prevote h state leads block block_hash =
        (state ≢ ConsensusState.propose) × (block_hash ≡ some h) × (is_some block ≡ true)
    Fits (ConsensusMessageBody.precommit sig) h state leads block block_hash =
        (state ≡ ConsensusState.precommit)
        × (block_hash ≡ some h)
        × (sig ≡ env.signing.sign_hash h me)

    -- Whether the draw of the round is this node.
    abbrev pub leads : Consensus B P → Bool
    leads s = elim (leader env s) [ done l ↦ s.pkey == l | _ ↦ false ]

    pub record Own (msg : ConsensusMessage P) (s : Consensus B P) : Type 0 where
      pub made : msg ≡ own_message env s msg.block_hash msg.body
      pub suits : Fits msg.body msg.block_hash s.state (leads s) s.block s.block_hash

    -- A message of another node, or a fitting one of this node.
    abbrev pub Allowed : ConsensusMessage P → Consensus B P → Type 0
    Allowed msg s = (msg.pkey ≢ env.signing.public_key me) ⊎ Own msg s

    -- After a call: the invariant holds, the state has not gone back, and a fitting message of this
    -- node is never refused.
    abbrev pub Post : ConsensusMessage P → Consensus B P → Consensus B P × Verdict → Type 0
    Post msg s r = Inv r.0 × (depth r.0.state ≤ depth s.state) × (Own msg s → r.1 ≡ ok tt)

    module _ (g : IsGroup ws es) where
      -- The draw of a leader returns.
      pub leader-done : (s : Consensus B P) → IsFixed s → (l : PublicKey) × (leader env s ≡ done l)
      leader-done s f =
          let (l, e, _) = Returns-done _ _ (
            select_leader_lem env.mix s.election_result s.round es f.leaders g.some_leader
              g.leaders_fit) in
          (l, e)

      -- For sorted votes of members of the group, in a state whose fixed fields are those of the group,
      -- the test for a supermajority returns, with no panic, and is true exactly if the voters have
      -- more than two thirds of the slots.
      pub has_supermajority_lem :
          (s : Consensus B P) (votes : Votes)
          → IsFixed s
          → AreVoters ws votes
          → Sorted votes
          → Returns (has_supermajority s votes) (λ super. (super ≡ true) ↔ IsQuorum ws votes)
      unfolding has_supermajority
      has_supermajority_lem s votes f voters sorted =
          let le = tally-le-total ws votes sorted in
          rw (f.group, f.sum, sum_votes-tally ws 0 votes voters (omega (arith, g.fits)))
            (simp zero-add (
              check_supermajority_lem (tally ws votes) (total (slot_counts ws)) le g.some_slot
                g.fits))
