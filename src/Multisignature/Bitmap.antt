-- ===== src/Multisignature/Bitmap.antt =====
-- About the bitmap and the sum that `create_multi_signature` returns.
use stegos.Prelude.{
  ℕ, ◌+◌, ◌%◌, ◌^◌, ◌≤◌, ◌≡◌, refl, ap, Bool, true, false, Option, none, some, List, [], ◌∷◌, ◌++◌,
  map, length, length-append, get_elem?-append, ltb, arith, Option-cases, inl, inr, done,
}
use stegos.Prelude.Int.{ℤ}
use stegos.Prelude.Order.{nat_ord}
use stegos.BtreeMap.{BtreeMap, lookup, contains_key}
use native.Mathlib.Nat.{mod-eq_of_lt}
use stegos.Crypto.{PublicKey, Signature, Signing}
use stegos.Multisignature.{
  zeros, set_bit, add_signatures, create_multi_signature_index, index_signatures,
  create_multi_signature,
}

pub append_cons : {A : Type 0} (xs ys : List A) (x : A) → xs ++ x ∷ ys ≡ (xs ++ x ∷ []) ++ ys
append_cons [] ys x = refl
append_cons (z ∷ xs) ys x = ap (◌∷◌ z) (append_cons xs ys x)

pub set_bit-append :
    (i : ℕ) (xs ys : List Bool) (x : Bool)
    → i ≡ length xs
    → set_bit (xs ++ x ∷ ys) i ≡ xs ++ true ∷ ys
set_bit-append i [] ys x e = rw e refl
set_bit-append i (z ∷ xs) ys x e = rw e (ap (◌∷◌ z) (set_bit-append (length xs) xs ys x refl))

-- Which of the validators signed.
abbrev pub signers : List (PublicKey × ℤ) → BtreeMap PublicKey Signature → List Bool
signers validators signatures = map (λ v. contains_key v.0 signatures) validators

module _ (c : Signing) where
  -- The sum of the validators' signatures, each counted once.
  abbrev pub add_present : Option Signature → Signature → Signature
  add_present none multisig = multisig
  add_present (some sig) multisig = c.add_signature multisig sig

  unfoldable pub sum_signatures :
      Signature → List (PublicKey × ℤ) → BtreeMap PublicKey Signature → Signature
  sum_signatures multisig [] signatures = multisig
  sum_signatures multisig ((pk, stake) ∷ validators) signatures =
      sum_signatures (add_present (lookup pk signatures) multisig) validators signatures

  add_signatures-index_signatures :
      (n id : ℕ) (multisig : Signature) (bits : List Bool) (validators : List (PublicKey × ℤ))
      (signatures : BtreeMap PublicKey Signature)
      → id ≡ length bits
      → id + length validators ≤ n
      → n ≤ 2 ^ 32
      → add_signatures c n multisig
          (bits ++ zeros (length validators))
          (index_signatures c id validators signatures)
        ≡ done
            (sum_signatures multisig validators signatures, bits ++ signers validators signatures)
  unfolding add_signatures index_signatures sum_signatures
  add_signatures-index_signatures n id multisig bits [] signatures e h few = refl
  add_signatures-index_signatures n id multisig bits ((pk, stake) ∷ validators) signatures e h few =
      let in_range : ltb id n ≡ true = ground arith in
      let narrow : id % 2 ^ 32 ≡ id = mod-eq_of_lt (omega arith) in
      elim (Option-cases (lookup pk signatures)) [
        | inl absent ↦
            rw
              (
                absent,
                index_signatures,
                append_cons bits (zeros (length validators)) false,
                append_cons bits (signers validators signatures) false,
              )
              (add_signatures-index_signatures n (id + 1) multisig (bits ++ false ∷ []) validators
                signatures (omega (arith, e, length-append bits (false ∷ []))) (omega arith) few)
        | inr (sig, present) ↦
            rw
              (
                present,
                index_signatures,
                narrow,
                in_range,
                get_elem?-append id bits (zeros (length validators)) false e,
                set_bit-append id bits (zeros (length validators)) false e,
                append_cons bits (zeros (length validators)) true,
                append_cons bits (signers validators signatures) true,
              )
              (add_signatures-index_signatures n (id + 1) (c.add_signature multisig sig)
                (bits ++ true ∷ []) validators signatures
                (omega (arith, e, length-append bits (true ∷ []))) (omega arith) few)
      ]

  -- For at most `2 ^ 32` validators, `create_multi_signature` returns, with no panic. The signature is
  -- the sum of the validators' signatures, and the bitmap has one bit for each validator, set exactly
  -- if the validator has a signature.
  pub create_multi_signature_lem :
      (validators : List (PublicKey × ℤ)) (signatures : BtreeMap PublicKey Signature)
      → length validators ≤ 2 ^ 32
      → create_multi_signature c validators signatures
        ≡ done
            (sum_signatures c.zero_signature validators signatures, signers validators signatures)
  unfolding create_multi_signature create_multi_signature_index
  create_multi_signature_lem validators signatures few =
      add_signatures-index_signatures (length validators) 0 c.zero_signature [] validators
        signatures refl (omega arith) few
