-- ===== src/ViewChange/TimedOut.antt =====
-- About the message that a validator sends after a timeout.
use stegos.Prelude.{
  ℕ, suc, ◌+◌, ◌%◌, ◌^◌, ◌≤◌, ◌≡◌, refl, sym, ap, ◌∙◌, true, false, ◌==◌, ==→≡, ==_refl, Bool-cases,
  inl, inr, Option, none, some, List, [], ◌∷◌, length, get_elem?, ltb, done, unwrap, ok, arith,
  >>=-eq-done,
}
use stegos.Prelude.Int.{ℤ}
use native.Mathlib.Nat.{mod-eq_of_lt}
use stegos.Crypto.{Hash, PublicKey, SecretKey, Signing, IsSound}
use stegos.ViewChange.{
  ViewChangeCollector, Blockchain, from_blockchain, find_validator, new, handle_timeout,
  check_message,
}

ltb_irrefl : (a : ℕ) → ltb a a ≡ false
ltb_irrefl a = ground arith

unwrap-done : {A : Type 0} (o : Option A) {a : A} → unwrap o ≡ done a → o ≡ some a
unwrap-done none e = absurd (ground arith)
unwrap-done (some b) e = cc

find_validator_lem :
    (id : ℕ) (pkey : PublicKey) (vs : List (PublicKey × ℤ)) {r : ℕ}
    → id + length vs ≤ 2 ^ 32
    → find_validator id pkey vs ≡ some r
    → (i : ℕ) × (n : ℤ) × (r ≡ id + i) × (get_elem? vs i ≡ some (pkey, n))
unfolding find_validator
find_validator_lem id pkey [] few e = absurd (ground arith)
find_validator_lem id pkey (v ∷ vs) {r} few e = elim (Bool-cases (v.0 == pkey)) [
  | inl here ↦
      let narrow : id % 2 ^ 32 ≡ id = mod-eq_of_lt (omega (arith, few)) in
      let found : some (id % 2 ^ 32) ≡ some r = rw here at e in
      (0, v.1, ground (arith, found, narrow), ap (λ k. some (k, v.1)) (==→≡ v.0 pkey here))
  | inr other ↦
      let (i, n, is_i, found) =
        find_validator_lem (id + 1) pkey vs (omega (arith, few)) (rw other at e) in
      (suc i, n, omega (arith, is_i), found)
]

module _ {StorageError : Type 0} (c : Signing) (chain : Blockchain StorageError) where
  -- For at most `2 ^ 32` validators and a key pair, the message that the collector of `new` sends
  -- after a timeout, about the state of the chain, passes the checks of every collector, which then
  -- knows the slots of its validator.
  pub check_message-handle_timeout :
      (pkey : PublicKey) (skey : SecretKey) (s : ViewChangeCollector)
      → IsSound c
      → c.public_key skey ≡ pkey
      → length chain.validators ≤ 2 ^ 32
      → new c chain pkey skey ≡ done s
      → (n : ℤ) × (get_elem? chain.validators s.validator_id ≡ some (pkey, n))
        × (check_message c chain (handle_timeout c chain s (from_blockchain chain)) ≡ done (ok n))
  unfolding new check_message
  check_message-handle_timeout pkey skey s sound pair few e =
      let (id, unwrapped, made) =
        >>=-eq-done (unwrap (find_validator 0 pkey chain.validators)) _ e in
      let is_found : find_validator 0 pkey chain.validators ≡ some id =
        unwrap-done (find_validator 0 pkey chain.validators) unwrapped in
      let is_id : s.validator_id ≡ id = ground (arith, made) in
      let (i, n, at_i, found) =
        find_validator_lem 0 pkey chain.validators (omega (arith, few)) is_found in
      let own_id : s.validator_id ≡ i = omega (arith, is_id, at_i) in
      let own_key : c.public_key s.skey ≡ pkey = ap c.public_key (ground (arith, made)) ∙ pair in
      let h : Hash = chain.digest (from_blockchain chain) in
      let at_id : get_elem? chain.validators s.validator_id ≡ some (pkey, n) =
        ap (get_elem? chain.validators) own_id ∙ found in
      let signed : c.check_hash h (c.sign_hash h s.skey) pkey ≡ true =
        ap (c.check_hash h (c.sign_hash h s.skey)) (sym own_key) ∙ sound.check_sign h s.skey in
      (
        n,
        at_id,
        rw
            (
              at_id,
              ==_refl chain.epoch,
              signed,
              ltb_irrefl chain.offset,
              ltb_irrefl chain.view_change,
              ==_refl chain.last_block_hash,
            )
            refl,
      )
