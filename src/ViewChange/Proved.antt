-- ===== src/ViewChange/Proved.antt =====
-- About `handle_message` and the proof that it returns.
use stegos.Prelude.{
  ℕ, ◌+◌, ◌*◌, ◌≤◌, ◌<◌, ◌≡◌, ◌↔◌, refl, sym, ap, Bool, true, false, not, ◌==◌, Bool-cases,
  Option-cases, inl, inr, Option, none, some, List, [], ◌∷◌, length, get_elem?, ltb, Outcome, done,
  ◌>>=◌, reject_if, Returns, Returns-step, Returns-bind, Returns-done, Result, ok, err, arith,
}
use stegos.Prelude.Int.{ℤ, pos}
use stegos.Prelude.Order.{nat_ord}
use stegos.BtreeMap.{lookup}
use stegos.Crypto.{Hash, PublicKey, Signing}
use stegos.Election.Winner.{slots, slot_counts, total}
use stegos.Multisignature.{check_supermajority, create_multi_signature_index, check_multi_signature}
use stegos.Multisignature.Supermajority.{check_supermajority_lem}
use stegos.Multisignature.Roundtrip.{IsAdditive}
use stegos.Multisignature.Aligned.{given_slots, given_slots-le-total, GivenValid, check-indexed}
use stegos.ViewChange.{
  ChainInfo, ViewChangeMessage, ViewChangeProof, ViewChangeCollector, ConsensusError,
  invalid_validator_id, Blockchain, from_blockchain, check_message, add_message, make_proof,
  handle_message, message_signatures, validate,
}
use stegos.ViewChange.Collected.{given_from, length-given_from, message_signatures-indexed}
use stegos.ViewChange.Checked.{IsGroup, given, Inv, add_message-Inv}

reject_if-returns :
    {E A : Type 0} (b : Bool) (e : E) (m : Outcome (Result E A))
    → ((r : Result E A) × (m ≡ done r))
    → (r : Result E A) × (reject_if b e m ≡ done r)
reject_if-returns true e m h = (err e, refl)
reject_if-returns false e m h = h

module _ {StorageError : Type 0} (c : Signing) (chain : Blockchain StorageError) where
  -- A proof passes its validation against the state of the chain that it is about.
  abbrev pub Passes : ViewChangeProof → Type 0
  Passes proof = validate c chain proof (from_blockchain chain) ≡ done (ok tt)

  -- From the collector `s` to `r`: with too few slots nothing changes, and with enough there is a
  -- proof, which passes and leaves nothing behind.
  abbrev pub Answered :
      List (PublicKey × ℕ)
      → ViewChangeCollector
      → ViewChangeCollector
      → Option ViewChangeProof
      → Type 0
  Answered ws s r none =
      (given_slots ws (given c chain ws s) * 3 ≤ total (slot_counts ws) * 2) × (r ≡ s)
  Answered ws s r (some proof) =
      (total (slot_counts ws) * 2 < given_slots ws (given c chain ws s) * 3)
      × Passes proof
      × (r.actual_view_changes ≡ [])

  validate-Passes :
      (ws : List (PublicKey × ℕ)) (proof : ViewChangeProof)
      → IsGroup c chain ws
      → check_multi_signature c
          (chain.digest (from_blockchain chain))
          proof.multisig
          proof.multimap
          (slots ws)
          (pos (total (slot_counts ws)))
        ≡ done (ok tt)
      → Passes proof
  unfolding validate
  validate-Passes ws proof group passes =
      rw (validate, group.by_offset, group.total_slots, passes) refl

  given_slots-nobody :
      (id : ℕ) (ws : List (PublicKey × ℕ)) → given_slots ws (given_from id ws []) ≡ 0
  unfolding lookup
  given_slots-nobody id [] = refl
  given_slots-nobody id (w ∷ ws) = given_slots-nobody (id + 1) ws

  GivenValid-nobody :
      (h : Hash) (id : ℕ) (ws : List (PublicKey × ℕ)) → GivenValid c h ws (given_from id ws [])
  unfolding lookup
  GivenValid-nobody h id [] = tt
  GivenValid-nobody h id (w ∷ ws) = GivenValid-nobody h (id + 1) ws

  make_proof-Inv :
      (ws : List (PublicKey × ℕ)) (s : ViewChangeCollector)
      → IsAdditive c
      → IsGroup c chain ws
      → Inv c chain ws s
      → Returns (make_proof c chain s) (λ (r, proof). Inv c chain ws r × Answered ws s r proof)
  unfolding make_proof validate
  make_proof-Inv ws s additive group inv =
      let got : ℕ = given_slots ws (given c chain ws s) in
      let (super, e, exact) =
        Returns-done (λ super. (super ≡ true) ↔ (total (slot_counts ws) * 2 < got * 3))
          (check_supermajority (pos got) (pos (total (slot_counts ws))))
          (check_supermajority_lem got (total (slot_counts ws))
            (given_slots-le-total ws (given c chain ws s)) group.some_slots group.fits) in
      let tested : check_supermajority s.collected_slots chain.total_slots ≡ done super =
        rw (inv.slots_of, group.total_slots) e in
      elim (Bool-cases super) [
        | inl enough ↦
            let (m, made, passes) =
              check-indexed c additive (chain.digest (from_blockchain chain)) ws
                (given c chain ws s) (length-given_from 0 ws s.actual_view_changes) group.have_slots
                inv.valid group.fits (exact.0 enough) in
            let made_here : create_multi_signature_index c
                  (message_signatures s.actual_view_changes) (length chain.validators)
                ≡ done m =
              rw
                (
                  message_signatures-indexed 0 ws s.actual_view_changes inv.sorted inv.within,
                  group.validators,
                )
                made in
            let proof : ViewChangeProof = record { multimap = m.1; multisig = m.0 } in
            let passes_here : Passes proof = validate-Passes ws proof group passes in
            Returns-step _ (check_supermajority s.collected_slots chain.total_slots) _ tested (
              rw enough (
                Returns-step _
                  (create_multi_signature_index c (message_signatures s.actual_view_changes)
                    (length chain.validators))
                  _ made_here
                  (
                    record {
                      sorted = tt;
                      within = tt;
                      valid = GivenValid-nobody (chain.digest (from_blockchain chain)) 0 ws;
                      slots_of = ap pos (sym (given_slots-nobody 0 ws));
                    },
                    (exact.0 enough, passes_here, refl),
                  )))
        | inr few ↦
            let few_slots : got * 3 ≤ total (slot_counts ws) * 2 = ground (arith, exact.1) in
            Returns-step _ (check_supermajority s.collected_slots chain.total_slots) _ tested
              (rw few (inv, (few_slots, refl)))
      ]

  -- After a call, by its result.
  abbrev pub Handled :
      List (PublicKey × ℕ)
      → ViewChangeMessage
      → ViewChangeCollector
      → ViewChangeCollector
      → Result ConsensusError (Option ViewChangeProof)
      → Type 0
  Handled ws message s r (err e) = (check_message c chain message ≡ done (err e)) × (r ≡ s)
  Handled ws message s r (ok proof) =
      (n : ℤ) × (check_message c chain message ≡ done (ok n))
      × Answered ws (add_message c chain message n s) r proof

  check_message-returns :
      (message : ViewChangeMessage)
      → (r : Result ConsensusError ℤ) × (check_message c chain message ≡ done r)
  unfolding check_message
  check_message-returns message =
      let info : ChainInfo = message.chain in
      reject_if-returns (not (info.epoch == chain.epoch)) _ _
        (elim (Option-cases (get_elem? chain.validators message.validator_id)) [
          | inl nobody ↦ rw nobody (err (invalid_validator_id message.validator_id), refl)
          | inr (v, found) ↦ rw found (
              reject_if-returns (not (c.check_hash (chain.digest info) message.signature v.0)) _ _ (
                reject_if-returns (ltb info.offset chain.offset) _ _ (
                  reject_if-returns (ltb chain.offset info.offset) _ _ (
                    reject_if-returns (not (info.last_block == chain.last_block_hash)) _ _ (
                      reject_if-returns (ltb info.view_change chain.view_change) _ _ (
                        reject_if-returns (ltb chain.view_change info.view_change) _ _
                          (ok v.1, refl)))))))
        ])

  -- For a group of validators whose signatures add up, and a collector that holds valid messages about
  -- the current state of the chain, `handle_message` returns, with no panic. A message that fails a
  -- check changes nothing. Any other is added by `add_message`; while the validators of those kept
  -- have no more than two thirds of the slots nothing else changes, and as soon as they have more, a
  -- proof is returned, which passes `validate`, and the collector is empty again. It holds valid
  -- messages about the current state of the chain after the call.
  pub handle_message-Inv :
      (ws : List (PublicKey × ℕ)) (message : ViewChangeMessage) (s : ViewChangeCollector)
      → IsAdditive c
      → IsGroup c chain ws
      → Inv c chain ws s
      → Returns
          (handle_message c chain message s)
          (λ (r, result). Inv c chain ws r × Handled ws message s r result)
  unfolding handle_message
  handle_message-Inv ws message s additive group inv =
      let (checked, e) = check_message-returns message in
      Returns-step _ (check_message c chain message) _ e (go checked e)
    where
      go :
          (checked : Result ConsensusError ℤ)
          → check_message c chain message ≡ done checked
          → Returns
              (elim checked [
                | err e ↦ done (s, err e)
                | ok n ↦ do
                  (s, proof) ← make_proof c chain (add_message c chain message n s)
                  done (s, ok proof)
              ])
              (λ (r, result). Inv c chain ws r × Handled ws message s r result)
      go (err x) e = (inv, (e, refl))
      go (ok n) e =
          Returns-bind _ _ (make_proof c chain (add_message c chain message n s)) _
            (make_proof-Inv ws (add_message c chain message n s) additive group
              (add_message-Inv c chain ws s message group inv e))
            λ (r, proof) (inv2, answered). (inv2, (n, e, answered))
