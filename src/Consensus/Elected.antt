-- ===== src/Consensus/Elected.antt =====
-- About the validators of an election when they run the protocol.
use mathlib.Core.Path.{subst}
use stegos.Prelude.{
  ℕ, ◌*◌, ◌^◌, ◌≤◌, ◌<◌, ◌≡◌, refl, sym, ap, ◌∙◌, true, some, [], ◌∷◌, length, arith, is_some, All,
  done, Returns, Returns-mono, ok,
}
use stegos.Prelude.Int.{pos}
use stegos.Crypto.{Hash, SecretKey, IsSound}
use stegos.Election.{ElectionResult, select_validators_slots}
use stegos.Election.Winner.{slots, slot_counts, total}
use stegos.Election.Stakers.{Counts, is_staker}
use stegos.Election.Slots.{IsElected, select_validators_slots-IsElected}
use stegos.Multisignature.{check_multi_signature}
use stegos.Multisignature.Roundtrip.{IsAdditive, HaveSlots}
use stegos.Consensus.State.{ConsensusState, MacroBlock, Consensus, Env}
use stegos.Consensus.Rounds.{commit}
use stegos.Consensus.Votes.{tally}
use stegos.Consensus.Invariant.{IsGroup, Inv}
use stegos.Consensus.Agreement.{Reach, Reach-Inv, commit-IsQuorum}
use stegos.Consensus.Committed.{IsAccepted, commit-check}

length-le-total : (ws : Counts) → HaveSlots ws → length ws ≤ total (slot_counts ws)
length-le-total [] h = omega arith
length-le-total (w ∷ ws) h = omega (arith, h.0, length-le-total ws h.1)

slots-injective : (us ws : Counts) → slots us ≡ slots ws → us ≡ ws
slots-injective [] [] e = refl
slots-injective [] (w ∷ ws) e = absurd (ground (arith, e))
slots-injective (u ∷ us) [] e = absurd (ground (arith, e))
slots-injective (u ∷ us) (w ∷ ws) e =
    let same : us ≡ ws = slots-injective us ws (ground (arith, e)) in
    let key : u.0 ≡ w.0 = ground (arith, e) in
    let count : u.1 ≡ w.1 = ground (arith, e) in λ i. (key i, count i) ∷ same i

-- The validators of an election, as the group of the protocol and the list that leaders are drawn from.
abbrev AreElected : Counts → ℕ → Counts → Type 0
AreElected es slot_count ws =
    (total (slot_counts ws) ≡ slot_count) × HaveSlots ws × All (λ w. is_staker w.0 es ≡ true) ws

elected-IsGroup :
    (es : Counts) (slot_count : ℕ) (ws : Counts)
    → 0 < slot_count
    → slot_count ≤ 2 ^ 32
    → AreElected es slot_count ws
    → IsGroup ws ws
elected-IsGroup es slot_count ws some_slot few (sum, have, _) =
    let le = length-le-total ws have in
    record {
      some_slot = omega (arith, sum);
      fits = omega (arith, sum);
      some_leader = omega (arith, sum);
      indexed = omega (arith, sum, le);
      leaders_fit = omega (arith, sum);
    }

-- What a validator of the election commits is accepted by all who know the election: the block has
-- the agreed hash, and its multi-signature passes for the validators drawn and the slots asked for.
abbrev pub IsFinal :
    {B P : Type 0} → Env B P → ElectionResult → ℕ → Consensus B P → MacroBlock B → Type 0
IsFinal env result slot_count s b =
    (s.block_hash ≡ some (env.block_digest b.content))
    × (check_multi_signature env.signing (env.block_digest b.content) b.multisig b.multisigmap
          result.validators (pos slot_count)
        ≡ done (ok tt))

module _ (mix : Hash → ℕ → Hash) (mix_facilitator : Hash → Hash) where
  elected-AreElected :
      (es : Counts) (random : Hash) (slot_count : ℕ) {result : ElectionResult} (ws : Counts)
      → 0 < total (slot_counts es)
      → total (slot_counts es) < 2 ^ 63
      → 0 < slot_count
      → slot_count ≤ 2 ^ 32
      → select_validators_slots mix mix_facilitator (slots es) random (pos slot_count) ≡ done result
      → result.validators ≡ slots ws
      → AreElected es slot_count ws
  elected-AreElected es random slot_count ws some_stake fits some_slot few elects drawn =
      let r : IsElected es slot_count _ = rw elects at (
        select_validators_slots-IsElected mix mix_facilitator es random slot_count some_stake fits
          some_slot (omega (arith, few))) in
      subst (AreElected es slot_count) (slots-injective r.winners ws (sym r.are_winners ∙ drawn))
        (r.all_slots, r.have_slots, r.are_stakers)

  module _ {B P : Type 0} (env : Env B P) where
    -- For stakes that are not negative and whose positive sum an `i64` holds, and 1 to `2 ^ 32`
    -- slots: if the validators of an election run the protocol, with leaders drawn from them, and one
    -- of them reaches `Commit` with its block saved, then `commit` returns, with no panic, a block at
    -- the agreed hash whose multi-signature `check_multi_signature` accepts for the validators and the
    -- number of slots of the election. Those who precommitted it have more than two thirds of that
    -- number of slots, and every validator is a staker.
    pub commit-select_validators_slots :
        (sound : IsSound env.signing) (additive : IsAdditive env.signing) (es : Counts)
        (random : Hash) (slot_count : ℕ) {result : ElectionResult} (ws : Counts) (me : SecretKey)
        {s : Consensus B P}
        → 0 < total (slot_counts es)
        → total (slot_counts es) < 2 ^ 63
        → 0 < slot_count
        → slot_count ≤ 2 ^ 32
        → select_validators_slots mix mix_facilitator (slots es) random (pos slot_count)
          ≡ done result
        → result.validators ≡ slots ws
        → Reach env ws ws me s
        → s.state ≡ ConsensusState.commit
        → is_some s.block ≡ true
        → Returns (commit env s) (IsFinal env result slot_count s)
          × (slot_count * 2 < tally ws s.precommits * 3)
          × All (λ w. is_staker w.0 es ≡ true) ws
    commit-select_validators_slots sound additive es random slot_count {result} ws me {s} some_stake
          fits some_slot few elects drawn reach here saved =
        let elected : AreElected es slot_count ws =
          elected-AreElected es random slot_count ws some_stake fits some_slot few elects drawn in
        let g : IsGroup ws ws = elected-IsGroup es slot_count ws some_slot few elected in
        let v : Inv env ws ws me s = Reach-Inv env sound ws ws g me reach in
        let (h, hashed, quorum, signed) = commit-IsQuorum env sound ws ws g me reach here in
        (
          Returns-mono (IsAccepted env s) (IsFinal env result slot_count s) (commit env s)
              (commit-check env sound additive ws ws g me elected.1 reach here saved)
              (λ b (at_hash, passes). (
                at_hash,
                rw (drawn, sym v.fixed.group, ap pos (sym elected.0), sym v.fixed.sum) passes,
              )),
          ground (arith, quorum, elected.0),
          elected.2,
        )
