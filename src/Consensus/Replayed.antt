-- ===== src/Consensus/Replayed.antt =====
-- About a prevote of the node's own key that another node sends, before the block has come.
use stegos.Prelude.{
  ℕ, suc, ◌≡◌, ◌↔◌, refl, ap, ◌∙◌, true, false, List, some, none, arith, Outcome, done, panicked,
  Bool-cases, inl, inr, Returns-done, ok,
}
use stegos.Prelude.Order.{nat_ord, eq?_refl}
use stegos.BtreeMap
use stegos.BtreeMap.{contains_key, lookup, lookup-insert}
use stegos.BtreeMap.Sorted.{insert-Sorted}
use stegos.Crypto.{Hash, PublicKey, SecretKey, IsSound}
use stegos.Consensus.State.{
  ConsensusState, ConsensusMessageBody, ConsensusMessage, Consensus, Env, validate,
}
use stegos.Consensus.Feed.{
  Verdict, own_message, transition, has_supermajority, precommit, process_body, advance,
  process_message, check_transition, check_block_hash, receive, feed_message,
}
use stegos.Consensus.Votes.{Slots, insert-AreVoters, contains_key-slots}
use stegos.Consensus.Invariant.{IsGroup, IsQuorum, Inv, has_supermajority_lem}
use stegos.Consensus.Agreement.{Reach, Reach-Inv}

-- The state with the prevote of the message.
abbrev pub with_prevote : {B P : Type 0} → ConsensusMessage P → Consensus B P → Consensus B P
with_prevote msg s = record s { prevotes = BtreeMap.insert msg.pkey msg.sig s.prevotes }

module _ {B P : Type 0} (env : Env B P) where
  -- In the state `Prevote` with no block saved, `advance` panics on a supermajority of prevotes with the
  -- node's own.
  advance_panics :
      (again : ConsensusMessage P → Consensus B P → Outcome (Consensus B P × Verdict))
      (s : Consensus B P)
      → s.block ≡ none
      → contains_key s.pkey s.prevotes ≡ true
      → has_supermajority s s.prevotes ≡ done true
      → advance env again ConsensusState.prevote s ≡ panicked
  unfolding advance precommit
  advance_panics again s b own super = rw (super, own, b) refl

  advance_waits :
      (again : ConsensusMessage P → Consensus B P → Outcome (Consensus B P × Verdict))
      (s : Consensus B P)
      → has_supermajority s s.prevotes ≡ done false
      → advance env again ConsensusState.prevote s ≡ done s
  unfolding advance
  advance_waits again s few = rw few refl

  -- A valid prevote for the block hash in the state `Prevote` passes every check.
  feed_message-process_message :
      (fuel : ℕ) (msg : ConsensusMessage P) (s : Consensus B P)
      {r : Outcome (Consensus B P × Verdict)}
      → validate env msg ≡ true
      → contains_key msg.pkey s.validators ≡ true
      → msg.epoch ≡ s.epoch
      → msg.round ≡ s.round
      → s.block_hash ≡ some msg.block_hash
      → msg.body ≡ ConsensusMessageBody.prevote
      → s.state ≡ ConsensusState.prevote
      → process_message env (feed_message env fuel) msg s ≡ r
      → feed_message env (suc fuel) msg s ≡ r
  unfolding feed_message receive check_block_hash check_transition transition
  feed_message-process_message fuel msg s valid member epoch round hash body here goes =
      ground (arith, goes)

  process_message_panics :
      (again : ConsensusMessage P → Consensus B P → Outcome (Consensus B P × Verdict))
      (msg : ConsensusMessage P) (s : Consensus B P)
      → msg.body ≡ ConsensusMessageBody.prevote
      → s.state ≡ ConsensusState.prevote
      → s.block ≡ none
      → contains_key s.pkey (with_prevote msg s).prevotes ≡ true
      → has_supermajority s (with_prevote msg s).prevotes ≡ done true
      → process_message env again msg s ≡ panicked
  unfolding process_message process_body has_supermajority
  process_message_panics again msg s body here b own super =
      let t = record (with_prevote msg s) { state = ConsensusState.prevote } in
      rw (body, here, advance_panics again t b own super) refl

  process_message_waits :
      (again : ConsensusMessage P → Consensus B P → Outcome (Consensus B P × Verdict))
      (msg : ConsensusMessage P) (s : Consensus B P)
      → msg.body ≡ ConsensusMessageBody.prevote
      → s.state ≡ ConsensusState.prevote
      → has_supermajority s (with_prevote msg s).prevotes ≡ done false
      → process_message env again msg s
        ≡ done (record (with_prevote msg s) { state = ConsensusState.prevote }, ok tt)
  unfolding process_message process_body has_supermajority
  process_message_waits again msg s body here few =
      let t = record (with_prevote msg s) { state = ConsensusState.prevote } in
      rw (body, here, advance_waits again t few) refl

  -- A member of the group that is in the state `Prevote` with no block saved, in any state that it can
  -- reach, panics on a prevote of its own key for the current epoch, round and block hash just if with
  -- this prevote the validators that have prevoted have more than two thirds of the slots.
  pub own_prevote_panics :
      (sound : IsSound env.signing) (ws : Slots) (es : List (PublicKey × ℕ)) (g : IsGroup ws es)
      (me : SecretKey) (fuel : ℕ) (h : Hash) {s : Consensus B P}
      → Reach env ws es me s
      → s.state ≡ ConsensusState.prevote
      → s.block ≡ none
      → s.block_hash ≡ some h
      → (feed_message env (suc fuel) (own_message env s h ConsensusMessageBody.prevote) s
          ≡ panicked)
        ↔ IsQuorum ws (with_prevote (own_message env s h ConsensusMessageBody.prevote) s).prevotes
  own_prevote_panics sound ws es g me fuel h {s} reach here b hashed =
      let v : Inv env ws es me s = Reach-Inv env sound ws es g me reach in
      let msg : ConsensusMessage P = own_message env s h ConsensusMessageBody.prevote in
      let votes = (with_prevote msg s).prevotes in
      let member : contains_key s.pkey ws ≡ true =
        ap (λ k. contains_key k ws) v.fixed.pkey_me ∙ v.fixed.member in
      let known : contains_key s.pkey s.validators ≡ true =
        rw v.fixed.group (contains_key-slots s.pkey ws ∙ member) in
      let valid : validate env msg ≡ true =
        rw (v.fixed.skey_me, v.fixed.pkey_me)
          (sound.check_sign (env.message_digest s.epoch s.round h ConsensusMessageBody.prevote)
            me) in
      let own : contains_key s.pkey votes ≡ true =
        ground (arith, lookup-insert s.pkey s.pkey msg.sig s.prevotes, eq?_refl s.pkey) in
      let (super, tested, exact) = Returns-done _ _ (
        has_supermajority_lem env ws es me g s votes v.fixed
          (insert-AreVoters ws s.pkey msg.sig s.prevotes member v.prevoters)
          (insert-Sorted s.pkey msg.sig s.prevotes v.prevotes_sorted)) in
      elim (Bool-cases super) [
        | inl enough ↦ (
          (λ _. exact.0 enough),
          (λ _. feed_message-process_message fuel msg s valid known refl refl hashed refl here (
              process_message_panics (feed_message env fuel) msg s refl here b own
                (tested ∙ ap done enough))),
        )
        | inr few ↦ (
          (λ panics.
              let returns =
                feed_message-process_message fuel msg s valid known refl refl hashed refl here (
                  process_message_waits (feed_message env fuel) msg s refl here
                    (tested ∙ ap done few)) in
              absurd (ground (arith, panics, returns))),
          (λ quorum. absurd (ground (arith, exact.1 quorum, few))),
        )
      ]
