-- ===== src/ViewChange/Checked.antt =====
-- About the messages that pass the checks, and a collector that holds some.
use stegos.Prelude.{
  unnot, ℕ, zero, suc, ◌+◌, ◌^◌, ◌<◌, ◌≡◌, sym, ap, ◌∙◌, true, not, ◌==◌, ==→≡, Option-cases, inl,
  inr, some, List, [], ◌∷◌, length, get_elem?, ltb, done, reject_if-ok, ok, arith,
}
use stegos.Prelude.Int.{ℤ, pos, +i64_pos, ◌+i64◌}
use stegos.Prelude.Order.{nat_ord}
use stegos.BtreeMap.{BtreeMap, lookup, insert}
use stegos.BtreeMap.Sorted.{Sorted, insert-Sorted}
use stegos.Crypto.{PublicKey, Signing}
use stegos.Election.Winner.{slots, slot_counts, total}
use stegos.Multisignature.Roundtrip.{HaveSlots}
use stegos.Multisignature.Aligned.{Given, given_slots, given_slots-le-total, GivenValid}
use stegos.ViewChange.{
  ChainInfo, ViewChangeMessage, ViewChangeCollector, Blockchain, from_blockchain, check_message,
  add_message,
}
use stegos.ViewChange.Collected.{given_from, Within, given_slots-insert, GivenValid-insert}

ChainInfo_ext :
    (a b : ChainInfo)
    → a.epoch ≡ b.epoch
    → a.offset ≡ b.offset
    → a.view_change ≡ b.view_change
    → a.last_block ≡ b.last_block
    → a ≡ b
ChainInfo_ext a b e f g h =
    λ i. record { epoch = e i; offset = f i; view_change = g i; last_block = h i }

module _ {StorageError : Type 0} (c : Signing) (chain : Blockchain StorageError) where
  -- The validators have these slots, which add up to `total_slots`, with room for the test; the
  -- election of the current offset is the current one.
  pub record IsGroup (ws : List (PublicKey × ℕ)) : Type 0 where
    pub validators : chain.validators ≡ slots ws
    pub total_slots : chain.total_slots ≡ pos (total (slot_counts ws))
    pub by_offset : chain.validators_by_offset chain.offset ≡ ok (slots ws)
    pub have_slots : HaveSlots ws
    pub some_slots : 0 < total (slot_counts ws)
    pub fits : total (slot_counts ws) + total (slot_counts ws) + 3 < 2 ^ 63

  abbrev pub given : List (PublicKey × ℕ) → ViewChangeCollector → Given
  given ws s = given_from 0 ws s.actual_view_changes

  -- What a collector holds are valid messages for the current state of the chain, and it has counted
  -- the slots of their validators.
  pub record Inv (ws : List (PublicKey × ℕ)) (s : ViewChangeCollector) : Type 0 where
    pub sorted : Sorted s.actual_view_changes
    pub within : Within 0 (length ws) s.actual_view_changes
    pub valid : GivenValid c (chain.digest (from_blockchain chain)) ws (given ws s)
    pub slots_of : s.collected_slots ≡ pos (given_slots ws (given ws s))

  -- A message that passes the checks is about the current state of the chain, from a validator whose
  -- signature it has.
  check_message-ok :
      (message : ViewChangeMessage) {n : ℤ}
      → check_message c chain message ≡ done (ok n)
      → (message.chain ≡ from_blockchain chain)
        × ((pk : PublicKey) × (get_elem? chain.validators message.validator_id ≡ some (pk, n))
            × (c.check_hash (chain.digest (from_blockchain chain)) message.signature pk ≡ true))
  unfolding check_message
  check_message-ok message run =
      let info : ChainInfo = message.chain in
      let (epoch, run) = reject_if-ok (not (info.epoch == chain.epoch)) _ _ run in
      elim (Option-cases (get_elem? chain.validators message.validator_id)) [
        | inl nobody ↦ absurd (ground (arith, rw nobody at run))
        | inr (v, found) ↦
            let (signed, run) =
              reject_if-ok (not (c.check_hash (chain.digest info) message.signature v.0)) _ _
                (rw found at run) in
            let (past, run) = reject_if-ok (ltb info.offset chain.offset) _ _ run in
            let (future, run) = reject_if-ok (ltb chain.offset info.offset) _ _ run in
            let (last, run) =
              reject_if-ok (not (info.last_block == chain.last_block_hash)) _ _ run in
            let (old, run) = reject_if-ok (ltb info.view_change chain.view_change) _ _ run in
            let (new, run) = reject_if-ok (ltb chain.view_change info.view_change) _ _ run in
            let same : info ≡ from_blockchain chain =
              ChainInfo_ext info (from_blockchain chain) (==→≡ info.epoch chain.epoch (unnot epoch))
                (ground (arith, past, future)) (ground (arith, old, new))
                (==→≡ info.last_block chain.last_block_hash (unnot last)) in
            (
              same,
              (
                v.0,
                found ∙ ap (λ m. some (v.0, m)) (ground (arith, run)),
                rw same at (unnot signed),
              ),
            )
      ]

  get_elem?-slots :
      (ws : List (PublicKey × ℕ)) (i : ℕ) {pk : PublicKey} {n : ℤ}
      → get_elem? (slots ws) i ≡ some (pk, n)
      → (k : ℕ) × (n ≡ pos k) × (get_elem? ws i ≡ some (pk, k)) × (i < length ws)
  get_elem?-slots [] i e = absurd (ground arith)
  get_elem?-slots (w ∷ ws) zero e = (w.1, ground arith, ground arith, omega arith)
  get_elem?-slots (w ∷ ws) (suc i) e =
      let (k, is_k, found, less) = get_elem?-slots ws i e in (k, is_k, found, omega (arith, less))

  Within-insert :
      (n k : ℕ) (message : ViewChangeMessage) (m : BtreeMap ℕ ViewChangeMessage)
      → k < n
      → Within 0 n m
      → Within 0 n (insert k message m)
  unfolding insert
  Within-insert n k message [] less w = ((omega arith, omega (arith, less)), tt)
  Within-insert n k message ((j, v) ∷ m) less w =
      ground (arith, Within-insert n k message m less w.1)

  pub add_message-Inv :
      (ws : List (PublicKey × ℕ)) (s : ViewChangeCollector) (message : ViewChangeMessage) {n : ℤ}
      → IsGroup ws
      → Inv ws s
      → check_message c chain message ≡ done (ok n)
      → Inv ws (add_message c chain message n s)
  unfolding add_message
  add_message-Inv ws s message group inv checked =
      let id : ℕ = message.validator_id in
      let (_, (pk, found, valid)) = check_message-ok message checked in
      let (k, is_k, found, less) = get_elem?-slots ws id (rw group.validators at found) in
      elim (Option-cases (lookup id s.actual_view_changes)) [
        | inr (_, present) ↦ rw present inv
        | inl absent ↦
            let m : BtreeMap ℕ ViewChangeMessage = insert id message s.actual_view_changes in
            let more =
              given_slots-insert 0 id id ws s.actual_view_changes message (omega arith) found
                absent in
            rw (absent, is_k)
              (record {
                sorted = insert-Sorted id message s.actual_view_changes inv.sorted;
                within = Within-insert (length ws) id message s.actual_view_changes less inv.within;
                valid =
                    GivenValid-insert c (chain.digest (from_blockchain chain)) 0 id id ws
                      s.actual_view_changes message (omega arith) found valid inv.valid;
                slots_of =
                    ap (λ z. z +i64 pos k) inv.slots_of
                    ∙ +i64_pos (given_slots ws (given ws s)) k (
                        omega
                          (arith, more, given_slots-le-total ws (given_from 0 ws m), group.fits))
                    ∙ ap pos (sym more);
              })
      ]
