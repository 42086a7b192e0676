-- ===== src/Multisignature/Roundtrip.antt =====
-- About `check_multi_signature` on what `create_multi_signature` returns.
use stegos.Prelude.{
  ℕ, ◌+◌, ◌*◌, ◌^◌, ◌≤◌, ◌<◌, ◌≡◌, ◌↔◌, refl, sym, ap, suc, map, Bool, true, false, some, List, [],
  ◌∷◌, length, ltb, arith, Option-cases, inl, inr, done, Returns, Returns-done, ok, if◌then◌else◌,
  All,
}
use stegos.Prelude.Int.{ℤ, pos, +i64_pos}
use stegos.Prelude.Order.{nat_ord}
use stegos.BtreeMap.{BtreeMap, lookup, contains_key}
use native.Mathlib.Nat.{add_assoc, zero-add}
use stegos.Crypto.{Hash, PublicKey, Signature, Signing}
use stegos.Election.Winner.{slots, slot_counts, total}
use stegos.Multisignature.{
  check_supermajority, create_multi_signature, sum_signers, check_multi_signature,
}
use stegos.Multisignature.Bitmap.{signers, sum_signatures, create_multi_signature_lem}
use stegos.Multisignature.Supermajority.{check_supermajority_lem}

pub length-map : {A B : Type 0} (f : A → B) (xs : List A) → length (map f xs) ≡ length xs
length-map f [] = refl
length-map f (x ∷ xs) = ap suc (length-map f xs)

-- BLS signatures over one hash add up to a signature of the sum of the keys.
pub record IsAdditive (c : Signing) : Type 0 where
  pub check_zero : (h : Hash) → c.check_hash h c.zero_signature c.zero_key ≡ true
  pub check_add :
      (h : Hash) (s t : Signature) (j k : PublicKey)
      → c.check_hash h s j ≡ true
      → c.check_hash h t k ≡ true
      → c.check_hash h (c.add_signature s t) (c.add_key j k) ≡ true

-- The slots of the validators that signed.
unfoldable pub weight : List (PublicKey × ℕ) → BtreeMap PublicKey Signature → ℕ
weight [] signatures = 0
weight ((k, n) ∷ ws) signatures =
    let rest = weight ws signatures in if contains_key k signatures then n + rest else rest

pub weight-le-total :
    (ws : List (PublicKey × ℕ)) (signatures : BtreeMap PublicKey Signature)
    → weight ws signatures ≤ total (slot_counts ws)
unfolding weight
weight-le-total [] signatures = omega arith
weight-le-total (w ∷ ws) signatures = ground (arith, weight-le-total ws signatures)

-- Every validator has slots.
abbrev pub HaveSlots : List (PublicKey × ℕ) → Type 0
HaveSlots = All (λ w. 0 < w.1)

module _ (c : Signing) where
  -- Each signature of a validator passes its own check.
  abbrev pub ValidFor : Hash → BtreeMap PublicKey Signature → List (PublicKey × ℕ) → Type 0
  ValidFor h signatures =
      All
        (λ w. (sig : Signature) → lookup w.0 signatures ≡ some sig → c.check_hash h sig w.0 ≡ true)

  -- The test of a multi-signature whose signers have enough slots, and for whose keys it holds.
  pub check_multi_signature-ok :
      (h : Hash) (multisig multipkey : Signature) (bits : List Bool) (ws : List (PublicKey × ℕ))
      (got : ℕ)
      → length bits ≡ length (slots ws)
      → sum_signers c c.zero_key (pos 0) (slots ws) bits ≡ done (multipkey, pos got)
      → c.check_hash h multisig multipkey ≡ true
      → got ≤ total (slot_counts ws)
      → total (slot_counts ws) + total (slot_counts ws) + 3 < 2 ^ 63
      → total (slot_counts ws) * 2 < got * 3
      → check_multi_signature c h multisig bits (slots ws) (pos (total (slot_counts ws)))
        ≡ done (ok tt)
  unfolding check_multi_signature
  check_multi_signature-ok h multisig multipkey bits ws got len sum valid some_slots fits enough =
      let (super, e2, exact) =
        Returns-done (λ super. (super ≡ true) ↔ (total (slot_counts ws) * 2 < got * 3))
          (check_supermajority (pos got) (pos (total (slot_counts ws))))
          (check_supermajority_lem got (total (slot_counts ws)) some_slots
            (omega (arith, some_slots, enough)) fits) in
      let enough_votes : super ≡ true = exact.1 enough in
      let fit : ltb (length (slots ws)) (length bits) ≡ false = ground (arith, len) in
      rw (fit, sum, e2, enough_votes, valid) refl

  module _ (additive : IsAdditive c) where
    sum_signers-Valid :
        (h : Hash) (s : Signature) (k : PublicKey) (acc : ℕ) (ws : List (PublicKey × ℕ))
        (signatures : BtreeMap PublicKey Signature)
        → c.check_hash h s k ≡ true
        → HaveSlots ws
        → ValidFor h signatures ws
        → acc + weight ws signatures < 2 ^ 63
        → (multipkey : PublicKey) × (sum_signers c k
              (pos acc)
              (slots ws)
              (signers (slots ws) signatures)
            ≡ done (multipkey, pos (acc + weight ws signatures)))
          × (c.check_hash h (sum_signatures c s (slots ws) signatures) multipkey ≡ true)
    unfolding sum_signers sum_signatures weight
    sum_signers-Valid h s k acc [] signatures valid have all fits = (k, ground arith, valid)
    sum_signers-Valid h s k acc ((pk, n) ∷ ws) signatures valid have all fits =
        elim (Option-cases (lookup pk signatures)) [
          | inl absent ↦
              rw (absent, sum_signatures)
                (sum_signers-Valid h s k acc ws signatures valid have.1 all.1 (rw absent at fits))
          | inr (sig, present) ↦
              let n_pos : ltb 0 n ≡ true = ground (arith, have.0) in
              rw
                (
                  present,
                  sum_signatures,
                  n_pos,
                  +i64_pos acc n (omega (arith, rw present at fits)),
                  sym (add_assoc acc n (weight ws signatures)),
                )
                (sum_signers-Valid h (c.add_signature s sig) (c.add_key k pk) (acc + n) ws
                  signatures (additive.check_add h s sig k pk valid (all.0 sig present)) have.1
                  all.1 (omega (arith, rw present at fits)))
        ]

    -- If at most `2 ^ 32` validators all have slots, whose sum an `i64` holds with room for the test,
    -- each signature that a validator has passes its own check, and those who signed have more than
    -- two thirds of the slots, then the multi-signature of `create_multi_signature` passes
    -- `check_multi_signature`, and neither call panics.
    pub check-create :
        (h : Hash) (ws : List (PublicKey × ℕ)) (signatures : BtreeMap PublicKey Signature)
        → length ws ≤ 2 ^ 32
        → HaveSlots ws
        → ValidFor h signatures ws
        → total (slot_counts ws) + total (slot_counts ws) + 3 < 2 ^ 63
        → total (slot_counts ws) * 2 < weight ws signatures * 3
        → Returns (create_multi_signature c (slots ws) signatures) (λ m.
          check_multi_signature c h m.0 m.1 (slots ws) (pos (total (slot_counts ws)))
          ≡ done (ok tt))
    unfolding check_multi_signature
    check-create h ws signatures few have all fits enough =
        let (multipkey, e, v) =
          sum_signers-Valid h c.zero_signature c.zero_key 0 ws signatures (additive.check_zero h)
            have all (omega (arith, weight-le-total ws signatures)) in
        rw
          (create_multi_signature_lem c (slots ws) signatures
            (rw (length-map {B = PublicKey × ℤ} (λ w. (w.0, pos w.1)) ws) few))
          (check_multi_signature-ok h (sum_signatures c c.zero_signature (slots ws) signatures)
            multipkey (signers (slots ws) signatures) ws (weight ws signatures)
            (length-map (λ (v : PublicKey × ℤ). contains_key v.0 signatures) (slots ws))
            (rw (zero-add (weight ws signatures)) at e) v (weight-le-total ws signatures) fits
            enough)
