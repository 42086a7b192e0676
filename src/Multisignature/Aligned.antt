-- ===== src/Multisignature/Aligned.antt =====
-- About multi-signatures of validators that are named by their index.
use stegos.Prelude.{
  ℕ, ◌+◌, ◌*◌, ◌^◌, ◌≤◌, ◌<◌, ◌≡◌, refl, sym, ◌∙◌, Bool, true, false, Option, none, some, is_some,
  List, [], ◌∷◌, ◌++◌, map, length, length-append, get_elem?-append, ltb, done, ok, arith,
}
use stegos.Prelude.Int.{ℤ, pos, +i64_pos}
use native.Mathlib.Nat.{add_assoc, zero-add}
use stegos.Crypto.{Hash, PublicKey, Signature, Signing}
use stegos.Election.Winner.{slots, slot_counts, total}
use stegos.Multisignature.{
  zeros, add_signatures, create_multi_signature_index, sum_signers, check_multi_signature,
}
use stegos.Multisignature.Bitmap.{append_cons, set_bit-append}
use stegos.Multisignature.Roundtrip.{IsAdditive, HaveSlots, length-map, check_multi_signature-ok}

-- For each validator in turn, the signature that it has given.
abbrev pub Given : Type 0
Given = List (Option Signature)

-- Those who have given one.
abbrev pub bits : Given → List Bool
bits = map is_some

-- The signatures given, each with the index of its validator.
abbrev pub indexed : ℕ → Given → List (ℕ × Signature)
indexed id [] = []
indexed id (none ∷ given) = indexed (id + 1) given
indexed id (some sig ∷ given) = (id, sig) ∷ indexed (id + 1) given

-- The slots of those who have given one.
abbrev pub given_slots : List (PublicKey × ℕ) → Given → ℕ
given_slots ((k, n) ∷ ws) (some sig ∷ given) = n + given_slots ws given
given_slots ((k, n) ∷ ws) (none ∷ given) = given_slots ws given
given_slots _ _ = 0

pub given_slots-le-total :
    (ws : List (PublicKey × ℕ)) (given : Given) → given_slots ws given ≤ total (slot_counts ws)
given_slots-le-total [] given = omega arith
given_slots-le-total (w ∷ ws) [] = omega arith
given_slots-le-total (w ∷ ws) (some _ ∷ given) = omega (arith, given_slots-le-total ws given)
given_slots-le-total (w ∷ ws) (none ∷ given) = omega (arith, given_slots-le-total ws given)

module _ (c : Signing) where
  abbrev sum_given : Signature → Given → Signature
  sum_given s [] = s
  sum_given s (none ∷ given) = sum_given s given
  sum_given s (some sig ∷ given) = sum_given (c.add_signature s sig) given

  -- Each signature given holds for the key of its validator.
  abbrev pub GivenValid : Hash → List (PublicKey × ℕ) → Given → Type 0
  GivenValid h ((k, n) ∷ ws) (some sig ∷ given) =
      (c.check_hash h sig k ≡ true) × GivenValid h ws given
  GivenValid h (w ∷ ws) (none ∷ given) = GivenValid h ws given
  GivenValid h _ _ = Unit

  add_signatures-indexed :
      (n id : ℕ) (s : Signature) (done_bits : List Bool) (given : Given)
      → id ≡ length done_bits
      → id + length given ≤ n
      → add_signatures c n s (done_bits ++ zeros (length given)) (indexed id given)
        ≡ done (sum_given s given, done_bits ++ bits given)
  unfolding add_signatures
  add_signatures-indexed n id s done_bits [] e h = refl
  add_signatures-indexed n id s done_bits (none ∷ given) e h =
      rw
        (
          append_cons done_bits (zeros (length given)) false,
          append_cons done_bits (bits given) false,
        )
        (add_signatures-indexed n (id + 1) s (done_bits ++ false ∷ []) given
          (omega (arith, e, length-append done_bits (false ∷ []))) (omega arith))
  add_signatures-indexed n id s done_bits (some sig ∷ given) e h =
      let in_range : ltb id n ≡ true = ground arith in
      rw
        (
          in_range,
          get_elem?-append id done_bits (zeros (length given)) false e,
          set_bit-append id done_bits (zeros (length given)) false e,
          append_cons done_bits (zeros (length given)) true,
          append_cons done_bits (bits given) true,
        )
        (add_signatures-indexed n (id + 1) (c.add_signature s sig) (done_bits ++ true ∷ []) given
          (omega (arith, e, length-append done_bits (true ∷ []))) (omega arith))

  module _ (additive : IsAdditive c) where
    sum_signers-given :
        (h : Hash) (s : Signature) (k : PublicKey) (acc : ℕ) (ws : List (PublicKey × ℕ))
        (given : Given)
        → c.check_hash h s k ≡ true
        → HaveSlots ws
        → length given ≡ length ws
        → GivenValid h ws given
        → acc + given_slots ws given < 2 ^ 63
        → (multipkey : PublicKey) × (sum_signers c k (pos acc) (slots ws) (bits given)
            ≡ done (multipkey, pos (acc + given_slots ws given)))
          × (c.check_hash h (sum_given s given) multipkey ≡ true)
    unfolding sum_signers
    sum_signers-given h s k acc [] [] valid have len all fits = (k, ground arith, valid)
    sum_signers-given h s k acc (w ∷ ws) [] valid have len all fits = absurd (omega (arith, len))
    sum_signers-given h s k acc [] (g ∷ given) valid have len all fits = absurd (omega (arith, len))
    sum_signers-given h s k acc (w ∷ ws) (none ∷ given) valid have len all fits =
        sum_signers-given h s k acc ws given valid have.1 (omega (arith, len)) all fits
    sum_signers-given h s k acc ((pk, n) ∷ ws) (some sig ∷ given) valid have len all fits =
        let n_pos : ltb 0 n ≡ true = ground (arith, have.0) in
        rw
          (
            n_pos,
            +i64_pos acc n (omega (arith, fits)),
            sym (add_assoc acc n (given_slots ws given)),
          )
          (sum_signers-given h (c.add_signature s sig) (c.add_key k pk) (acc + n) ws given
            (additive.check_add h s sig k pk valid all.0) have.1 (omega (arith, len)) all.1
            (omega (arith, fits)))

    -- The multi-signature of valid signatures that were given by validators with more than two thirds
    -- of the slots passes its test.
    pub check-indexed :
        (h : Hash) (ws : List (PublicKey × ℕ)) (given : Given)
        → length given ≡ length ws
        → HaveSlots ws
        → GivenValid h ws given
        → total (slot_counts ws) + total (slot_counts ws) + 3 < 2 ^ 63
        → total (slot_counts ws) * 2 < given_slots ws given * 3
        → (m : Signature × List Bool) × (create_multi_signature_index c
              (indexed 0 given)
              (length (slots ws))
            ≡ done m)
          × (check_multi_signature c h m.0 m.1 (slots ws) (pos (total (slot_counts ws)))
              ≡ done (ok tt))
    unfolding create_multi_signature_index
    check-indexed h ws given len have all fits enough =
        let same : length (slots ws) ≡ length given =
          length-map {B = PublicKey × ℤ} (λ w. (w.0, pos w.1)) ws ∙ sym len in
        let (multipkey, e, v) =
          sum_signers-given h c.zero_signature c.zero_key 0 ws given (additive.check_zero h) have
            len all (omega (arith, given_slots-le-total ws given)) in
        (
          (sum_given c.zero_signature given, bits given),
          rw same (
              add_signatures-indexed (length given) 0 c.zero_signature [] given refl (omega arith)),
          check_multi_signature-ok c h (sum_given c.zero_signature given) multipkey (bits given) ws
              (given_slots ws given) (length-map is_some given ∙ sym same)
              (rw (zero-add (given_slots ws given)) at e) v (given_slots-le-total ws given) fits
              enough,
        )
