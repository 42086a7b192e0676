-- ===== src/Consensus/Committed.antt =====
-- About the block that `Consensus::commit` returns, and its multi-signature.
use stegos.Prelude.{
  ℕ, ◌+◌, ◌≤◌, ◌≡◌, refl, true, some, List, [], ◌∷◌, arith, is_some, done, Returns, Returns-bind,
  Returns-assert, Returns-unwrap, is_some-value, ok, if◌then◌else◌,
}
use stegos.Prelude.Order.{nat_ord, eq?→≡}
use stegos.BtreeMap.{contains_key, lookup}
use stegos.BtreeMap.Sorted.{Sorted, lookup-Above}
use stegos.Crypto.{Hash, PublicKey, SecretKey, IsSound}
use stegos.Multisignature.{check_multi_signature, create_multi_signature}
use stegos.Multisignature.Roundtrip.{IsAdditive, HaveSlots, ValidFor, weight, check-create}
use stegos.Consensus.State.{ConsensusState, is_state, MacroBlock, Consensus, Env}
use stegos.Consensus.Rounds.{commit}
use stegos.Consensus.Votes.{Slots, Votes, tally}
use stegos.Consensus.Invariant.{IsGroup, Signed}
use stegos.Consensus.Agreement.{Reach, Reach-Inv, commit-IsQuorum, Signed-lookup}

tally-cons :
    (k : PublicKey) (n : ℕ) (ws : Slots) (votes : Votes)
    → Sorted votes
    → tally ((k, n) ∷ ws) votes
      ≤ (if contains_key k votes then n + tally ws votes else tally ws votes)
unfolding tally lookup
tally-cons k n ws [] s = omega arith
tally-cons k n ws ((j, sig) ∷ votes) s =
    ground (arith, tally-cons k n ws votes s.1, lookup-Above j votes s.0, eq?→≡ j k, eq?→≡ k j)

tally_none : (votes : Votes) → tally [] votes ≡ 0
unfolding tally lookup
tally_none [] = refl
tally_none (v ∷ votes) = ground (arith, tally_none votes)

tally-le-weight : (ws : Slots) (votes : Votes) → Sorted votes → tally ws votes ≤ weight ws votes
unfolding weight
tally-le-weight [] votes s = omega (arith, tally_none votes)
tally-le-weight ((k, n) ∷ ws) votes s =
    ground (arith, tally-cons k n ws votes s, tally-le-weight ws votes s)

module _ {B P : Type 0} (env : Env B P) where
  Signed-ValidFor :
      (h : Hash) (votes : Votes) (ws : Slots) → Signed env h votes → ValidFor env.signing h votes ws
  Signed-ValidFor h votes [] v = tt
  Signed-ValidFor h votes (w ∷ ws) v =
      (λ sig e. Signed-lookup env h w.0 votes v e, Signed-ValidFor h votes ws v)

  -- A block at the hash that the validators voted on, with a multi-signature that they accept.
  abbrev pub IsAccepted : Consensus B P → MacroBlock B → Type 0
  IsAccepted s b =
      (s.block_hash ≡ some (env.block_digest b.content))
      × (check_multi_signature env.signing (env.block_digest b.content) b.multisig b.multisigmap
            s.validators s.total_slots
          ≡ done (ok tt))

  -- A member of the group that has reached `Commit` with its block saved gets a block from `commit`,
  -- with no panic, whose hash is the one voted on and whose multi-signature passes
  -- `check_multi_signature` for this group, if every validator has slots.
  pub commit-check :
      (sound : IsSound env.signing) (additive : IsAdditive env.signing) (ws : Slots)
      (es : List (PublicKey × ℕ)) (g : IsGroup ws es) (me : SecretKey) {s : Consensus B P}
      → HaveSlots ws
      → Reach env ws es me s
      → s.state ≡ ConsensusState.commit
      → is_some s.block ≡ true
      → Returns (commit env s) (IsAccepted s)
  unfolding commit
  commit-check sound additive ws es g me {s} have r here saved =
      let v = Reach-Inv env sound ws es g me r in
      let (h, hashed, quorum, signed) = commit-IsQuorum env sound ws es g me r here in
      let (block, kept) = is_some-value s.block saved in
      let at_hash : s.block_hash ≡ some (env.block_digest block.content) = rw kept at v.block_has in
      let over : Signed env (env.block_digest block.content) s.precommits =
        ground (arith, v.signed, at_hash) in
      let checks : Returns (create_multi_signature env.signing s.validators s.precommits) (λ m.
        check_multi_signature env.signing (env.block_digest block.content) m.0 m.1 s.validators
          s.total_slots
        ≡ done (ok tt)) =
        rw (v.fixed.group, v.fixed.sum)
          (check-create env.signing additive (env.block_digest block.content) ws s.precommits
            g.indexed have (Signed-ValidFor _ _ ws over) g.fits
            (omega (arith, tally-le-weight ws s.precommits v.precommits_sorted))) in
      Returns-assert (IsAccepted s) (is_state s.state ConsensusState.commit) _ (rw here refl) (
        Returns-unwrap (IsAccepted s) s.block _ kept (
          Returns-bind _ (IsAccepted s) _
            (λ m. done (record block { multisig = m.0; multisigmap = m.1 })) checks
            (λ m passes. (at_hash, passes))))
