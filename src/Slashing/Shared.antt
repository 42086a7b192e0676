-- ===== src/Slashing/Shared.antt =====
-- About the stake that `confiscate_tx` shares out.
use stegos.Prelude.{
  ℕ, suc, ◌+◌, ◌*◌, ◌/◌, ◌%◌, ◌^◌, ◌≤◌, ◌<◌, ◌≡◌, refl, ap, ◌∙◌, true, false, ◌==◌, ==_refl,
  Bool-cases, inl, inr, some, List, [], ◌∷◌, ◌++◌, length, is_empty, if◌then◌else◌, done, ok, All,
  leb, arith,
}
use stegos.Prelude.Int.{ℤ, pos, ltb_ℤ, ◌+i64◌, ◌+ℤ◌, +i64_pos}
use native.Mathlib.Nat.{div-add-mod}
use stegos.Crypto.{Hash, PublicKey}
use stegos.Escrow.{AccountKey, Escrow, Stakes, iter_validator_stakes, account_by_network_key}
use stegos.Transaction.{
  Primitives, SlashingProof, SlashingTransaction, Output, public_payment_output,
}
use stegos.Slashing.{
  Blockchain, active_stakes, other_validators, share_out, validate_proof, confiscate_tx,
}

-- The exact sum of the public payments.
abbrev pub total_paid : List Output → ℤ
total_paid [] = pos 0
total_paid (public_payment_output o ∷ os) = o.amount +ℤ total_paid os
total_paid (_ ∷ os) = total_paid os

-- How often a key is in a list.
abbrev pub occurrences : PublicKey → List PublicKey → ℕ
occurrences key [] = 0
occurrences key (k ∷ ks) = let rest = occurrences key ks in if k == key then rest + 1 else rest

-- The outputs are public payments, one for each validator in turn, to its account, of `piece` or
-- more.
abbrev pub PaidTo : Escrow → ℕ → List PublicKey → List Output → Type 0
PaidTo escrow piece (v ∷ vs) (public_payment_output o ∷ os) =
    (account_by_network_key v escrow ≡ some o.recipient)
    × ((n : ℕ) × (o.amount ≡ pos n) × (piece ≤ n))
    × PaidTo escrow piece vs os
PaidTo escrow piece [] [] = Unit
PaidTo escrow piece _ _ = ⊥

abbrev pub HaveAccounts : Escrow → List PublicKey → Type 0
HaveAccounts escrow = All (λ v. (key : AccountKey) × (account_by_network_key v escrow ≡ some key))

+ℤ_pos : (a b : ℕ) → pos a +ℤ pos b ≡ pos (a + b)
unfolding ◌+ℤ◌
+ℤ_pos a b = ground arith

add_ours : (l o p c : ℕ) → (p + c) + (l * p + o * c) ≡ suc l * p + (o + 1) * c
add_ours l o p c = omega arith

add_other : (l o p c : ℕ) → p + (l * p + o * c) ≡ suc l * p + o * c
add_other l o p c = omega arith

share_out_lem :
    (escrow : Escrow) (serno : ℕ → ℤ) (i : ℕ) (our_key : PublicKey) (piece change : ℕ)
    (vs : List PublicKey)
    → piece + change < 2 ^ 63
    → HaveAccounts escrow vs
    → (outputs : List Output) × (share_out escrow serno i our_key (pos piece) (pos change) vs
        ≡ done outputs)
      × PaidTo escrow piece vs outputs
      × (total_paid outputs ≡ pos (length vs * piece + occurrences our_key vs * change))
unfolding share_out
share_out_lem escrow serno i our_key piece change [] fits accounts =
    ([], refl, tt, ap pos (omega arith))
share_out_lem escrow serno i our_key piece change (v ∷ vs) fits ((key, account), accounts) =
    let (rest, shared, paid, sum) =
      share_out_lem escrow serno (i + 1) our_key piece change vs fits accounts in
    elim (Bool-cases (v == our_key)) [
      | inl ours ↦ (
        public_payment_output
              (record { recipient = key; serno = serno i; amount = pos (piece + change) })
            ∷ rest,
        rw (account, shared, ours, +i64_pos piece change fits) refl,
        (account, (piece + change, refl, omega arith), paid),
        rw ours (
            ap (λ z. pos (piece + change) +ℤ z) sum
            ∙ +ℤ_pos (piece + change) (length vs * piece + occurrences our_key vs * change)
            ∙ ap pos (add_ours (length vs) (occurrences our_key vs) piece change)),
      )
      | inr other ↦ (
        public_payment_output (record { recipient = key; serno = serno i; amount = pos piece })
            ∷ rest,
        rw (account, shared, other) refl,
        (account, (piece, refl, omega arith), paid),
        rw other (
            ap (λ z. pos piece +ℤ z) sum
            ∙ +ℤ_pos piece (length vs * piece + occurrences our_key vs * change)
            ∙ ap pos (add_other (length vs) (occurrences our_key vs) piece change)),
      )
    ]

is_empty-append : (hs : List Hash) (h : Hash) → is_empty (hs ++ h ∷ []) ≡ false
is_empty-append [] h = refl
is_empty-append (k ∷ hs) h = refl

-- Without an active stake the sum stays what it was.
active_stakes-empty :
    (epoch : ℕ) (m : Stakes) (hs : List Hash) (stake : ℤ)
    → is_empty (active_stakes epoch (hs, stake) m).0 ≡ true
    → (is_empty hs ≡ true) × ((active_stakes epoch (hs, stake) m).1 ≡ stake)
unfolding active_stakes
active_stakes-empty epoch [] hs stake e = (e, refl)
active_stakes-empty epoch ((key, value) ∷ m) hs stake e =
    elim (Bool-cases (leb epoch value.active_until_epoch)) [
      | inl active ↦
          let (none_yet, _) =
            active_stakes-empty epoch m (hs ++ key.1 ∷ []) (stake +i64 value.amount)
              (rw active at e) in
          absurd (ground (arith, is_empty-append hs key.1, none_yet))
      | inr expired ↦ rw expired (active_stakes-empty epoch m hs stake (rw expired at e))
    ]

has_input :
    (epoch : ℕ) (m : Stakes) {hs : List Hash} {n : ℕ}
    → active_stakes epoch ([], pos 0) m ≡ (hs, pos n)
    → 0 < n
    → is_empty hs ≡ false
has_input epoch m {hs} {n} e positive = elim (Bool-cases (is_empty hs)) [
  | inl empty ↦
      let (_, zero_sum) = active_stakes-empty epoch m [] (pos 0) (rw e empty) in
      let nothing : pos n ≡ pos 0 = rw e at zero_sum in absurd (ground (arith, nothing, positive))
  | inr some_input ↦ some_input
]

others-some : (key : PublicKey) (vs : List PublicKey) → occurrences key vs ≡ 1 → is_empty vs ≡ false
others-some key [] once = absurd (omega (arith, once))
others-some key (v ∷ vs) once = refl

shares_fit : (n l : ℕ) → n < 2 ^ 63 → n / suc l + n % suc l < 2 ^ 63
shares_fit n l fits = omega (arith, fits, div-add-mod n (suc l))

module _ (p : Primitives) (mix : Hash → ℕ → Hash) (chain : Blockchain) where
  -- For an accepted proof whose blocks have the same key, active stakes of that key that add up to a
  -- positive amount, other validators that have accounts, and one of these whose key is `our_key`,
  -- `confiscate_tx` returns, with no panic, a transaction that spends exactly these stakes. It pays
  -- every other validator at least the same share, in their order, and the payments add up to the
  -- stakes.
  pub confiscate_tx_lem :
      (serno : ℕ → ℤ) (our_key : PublicKey) (proof : SlashingProof) {hs : List Hash} {n : ℕ}
      → proof.block1.pkey ≡ proof.block2.pkey
      → validate_proof p mix chain proof ≡ done (ok tt)
      → active_stakes chain.history.epoch
          ([], pos 0)
          (iter_validator_stakes proof.block1.pkey chain.escrow)
        ≡ (hs, pos n)
      → 0 < n
      → n < 2 ^ 63
      → HaveAccounts chain.escrow (other_validators proof.block1.pkey chain.validators)
      → occurrences our_key (other_validators proof.block1.pkey chain.validators) ≡ 1
      → (tx : SlashingTransaction) × (confiscate_tx p mix chain serno our_key proof ≡ done (ok tx))
        × (tx.txins ≡ hs)
        × PaidTo chain.escrow
            (n / length (other_validators proof.block1.pkey chain.validators))
            (other_validators proof.block1.pkey chain.validators)
            tx.txouts
        × (total_paid tx.txouts ≡ pos n)
  unfolding confiscate_tx
  confiscate_tx_lem serno our_key proof {hs} {n} same valid stakes positive fits accounts once =
      let vs : List PublicKey = other_validators proof.block1.pkey chain.validators in
      let (outputs, shared, paid, sum) =
        share_out_lem chain.escrow serno 0 our_key (n / length vs) (n % length vs) vs
          (pieces vs once) accounts in
      (
        record { proof = proof; txins = hs; txouts = outputs },
        rw
            (
              same_keys,
              stakes,
              others-some our_key vs once,
              has_input chain.history.epoch (iter_validator_stakes proof.block1.pkey chain.escrow)
                  stakes positive,
              valid,
              is_positive,
              shared,
            )
            refl,
        refl,
        paid,
        sum ∙ ap pos (rw once (all_shared (length vs))),
      )
    where
      pieces :
          (vs : List PublicKey)
          → occurrences our_key vs ≡ 1
          → n / length vs + n % length vs < 2 ^ 63
      pieces [] once = absurd (omega (arith, once))
      pieces (v ∷ vs) once = shares_fit n (length vs) fits

      same_keys : (proof.block1.pkey == proof.block2.pkey) ≡ true
      same_keys = rw same (==_refl proof.block2.pkey)

      is_positive : ltb_ℤ (pos 0) (pos n) ≡ true
      is_positive = ground (arith, positive)

      all_shared : (l : ℕ) → l * (n / l) + 1 * (n % l) ≡ n
      all_shared l = omega (arith, div-add-mod n l)
