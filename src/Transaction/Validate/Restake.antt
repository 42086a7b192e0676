-- ===== src/Transaction/Validate/Restake.antt =====
-- About `RestakeTransaction::validate`.
use stegos.Prelude.{
  unnot, ℕ, ◌+◌, ◌^◌, ◌<◌, ◌≡◌, refl, sym, ap, ◌∙◌, true, false, not, ◌==◌, ==→≡, Option, none,
  some, List, [], ◌∷◌, map, length, is_empty, done, ok, assert-done, reject_if-ok, try_then-ok, All,
  arith, Option-cases, inl, inr,
}
use stegos.Prelude.Int.{ℤ, pos, negsuc, pos_part, leb_ℤ, eq_ℤ, ◌+i64◌, +i64_pos}
use stegos.Crypto.{Hash, PublicKey}
use stegos.Transaction.{
  Output, payment_output, public_payment_output, stake_output, RestakeTransaction,
  restake_transaction, Primitives, validate_output,
}
use stegos.Transaction.Validate.{contains, is_mixed, sum_stakes, sum_new_stakes, validate_restake}
use stegos.Transaction.Validate.Unique.{Unique, UniqueAfter, UniqueAfter-Unique}

-- The validator of a stake.
abbrev pub stake_key : Output → Option PublicKey
stake_key (stake_output o) = some o.validator
stake_key _ = none

abbrev pub stake_amount : Output → ℤ
stake_amount (stake_output o) = o.amount
stake_amount _ = pos 0

-- The sum of amounts, in an `i64`.
abbrev pub sum_i64 : ℤ → List ℤ → ℤ
sum_i64 s [] = s
sum_i64 s (n ∷ ns) = sum_i64 (s +i64 n) ns

-- Every output is a stake of the one validator, if there is one.
abbrev pub HaveKey : Option PublicKey → List Output → Type 0
HaveKey key = All (λ o. stake_key o ≡ key)

-- The sum of amounts that are not negative.
abbrev pub total_amount : List Output → ℕ
total_amount [] = 0
total_amount (o ∷ os) = pos_part (stake_amount o) + total_amount os

abbrev pub NotNegative : List Output → Type 0
NotNegative = All (λ o. leb_ℤ (pos 0) (stake_amount o) ≡ true)

unmixed :
    (p : Primitives) (key : Option PublicKey) (v u : PublicKey)
    → is_mixed p key v ≡ false
    → key ≡ some u
    → v ≡ u
unmixed p none v u e h = absurd (ground arith)
unmixed p (some w) v u e h = ground (arith, ==→≡ w v)

pos_of_not_negative : (n : ℤ) → leb_ℤ (pos 0) n ≡ true → n ≡ pos (pos_part n)
pos_of_not_negative (pos n) e = refl
pos_of_not_negative (negsuc n) e = absurd (ground arith)

not_negative : (n : ℤ) → leb_ℤ n (pos 0) ≡ false → leb_ℤ (pos 0) n ≡ true
not_negative (pos n) e = ground arith
not_negative (negsuc n) e = absurd (ground arith)

eq_ℤ→≡ : (a b : ℤ) → eq_ℤ a b ≡ true → a ≡ b
eq_ℤ→≡ (pos a) (pos b) e = ap pos (==→≡ a b e)
eq_ℤ→≡ (negsuc a) (negsuc b) e = ap negsuc (==→≡ a b e)
eq_ℤ→≡ (pos a) (negsuc b) e = absurd (ground arith)
eq_ℤ→≡ (negsuc a) (pos b) e = absurd (ground arith)

sum_i64_total :
    (s : ℕ) (os : List Output)
    → NotNegative os
    → s + total_amount os < 2 ^ 63
    → sum_i64 (pos s) (map stake_amount os) ≡ pos (s + total_amount os)
sum_i64_total s [] nn fits = ground arith
sum_i64_total s (o ∷ os) nn fits =
    let amount : stake_amount o ≡ pos (pos_part (stake_amount o)) =
      pos_of_not_negative (stake_amount o) nn.0 in
    rw (amount, +i64_pos s (pos_part (stake_amount o)) (omega (arith, fits)))
      (sum_i64_total (s + pos_part (stake_amount o)) os nn.1 (omega (arith, fits))
        ∙ ap pos (omega arith))

module _ (p : Primitives) where
  sum_stakes-ok :
      (h : Hash) (seen : List Hash) (key : Option PublicKey) (s : ℤ) (txins : List Hash)
      (inputs : List Output) {vkey : Option PublicKey} {t : ℤ}
      → length txins ≡ length inputs
      → sum_stakes p h seen key s txins inputs ≡ done (ok (vkey, t))
      → (map p.digest inputs ≡ txins)
        × UniqueAfter seen txins
        × (t ≡ sum_i64 s (map stake_amount inputs))
        × HaveKey vkey inputs
        × ((u : PublicKey) → key ≡ some u → vkey ≡ some u)
  unfolding sum_stakes
  sum_stakes-ok h seen key s [] [] len run = (refl, tt, cc, tt, λ u e. cc)
  sum_stakes-ok h seen key s [] (o ∷ inputs) len run = absurd (omega (arith, len))
  sum_stakes-ok h seen key s (x ∷ txins) [] len run = absurd (omega (arith, len))
  sum_stakes-ok h seen key s (x ∷ txins) (payment_output o ∷ inputs) len run = absurd (ground arith)
  sum_stakes-ok h seen key s (x ∷ txins) (public_payment_output o ∷ inputs) len run =
      absurd (ground arith)
  sum_stakes-ok h seen key s (x ∷ txins) (stake_output o ∷ inputs) len run =
      let (same, run) = assert-done (p.digest (stake_output o) == x) _ run in
      let (fresh, run) = reject_if-ok (contains x seen) _ _ run in
      let (single, run) = reject_if-ok (is_mixed p key o.validator) _ _ run in
      let (digests, unique, sum, keys, kept) =
        sum_stakes-ok h (x ∷ seen) (some o.validator) (s +i64 o.amount) txins inputs
          (omega (arith, len)) run in
      (
        rw (==→≡ (p.digest (stake_output o)) x same, digests) refl,
        (fresh, unique),
        sum,
        (sym (kept o.validator refl), keys),
        λ u e. kept o.validator refl ∙ ap some (unmixed p key o.validator u single e),
      )

  sum_new_stakes-ok :
      (h : Hash) (seen : List Hash) (key : Option PublicKey) (s : ℤ) (txouts : List Output) {t : ℤ}
      → sum_new_stakes p h seen key s txouts ≡ done (ok t)
      → UniqueAfter seen (map p.digest txouts)
        × (t ≡ sum_i64 s (map stake_amount txouts))
        × All (λ o. validate_output p o ≡ done (ok tt)) txouts
        × ((vkey : Option PublicKey) × HaveKey vkey txouts
            × ((u : PublicKey) → key ≡ some u → vkey ≡ some u))
  unfolding sum_new_stakes
  sum_new_stakes-ok h seen key s [] run = (tt, cc, tt, (key, tt, λ u e. e))
  sum_new_stakes-ok h seen key s (payment_output o ∷ txouts) run =
      let (_, run) = reject_if-ok (contains (p.digest (payment_output o)) seen) _ _ run in
      let (_, _, run) = try_then-ok (validate_output p (payment_output o)) _ run in
      absurd (ground arith)
  sum_new_stakes-ok h seen key s (public_payment_output o ∷ txouts) run =
      let (_, run) = reject_if-ok (contains (p.digest (public_payment_output o)) seen) _ _ run in
      let (_, _, run) = try_then-ok (validate_output p (public_payment_output o)) _ run in
      absurd (ground arith)
  sum_new_stakes-ok h seen key s (stake_output o ∷ txouts) run =
      let (fresh, run) = reject_if-ok (contains (p.digest (stake_output o)) seen) _ _ run in
      let (_, valid, run) = try_then-ok (validate_output p (stake_output o)) _ run in
      let (single, run) = reject_if-ok (is_mixed p key o.validator) _ _ run in
      let (unique, sum, all, (vkey, keys, kept)) =
        sum_new_stakes-ok h (p.digest (stake_output o) ∷ seen) (some o.validator) (s +i64 o.amount)
          txouts run in
      (
        (fresh, unique),
        sum,
        (valid, all),
        (
          vkey,
          (sym (kept o.validator refl), keys),
          λ u e. kept o.validator refl ∙ ap some (unmixed p key o.validator u single e),
        ),
      )

  -- A restaking that `validate` accepts has an input, inputs with the digests that it names, and no
  -- input or output twice. Its inputs are stakes of one validator, whose signature it has; its outputs
  -- are stakes of one validator, each valid by itself. The amounts of both have the same sum as `i64`.
  pub validate_restake_lem :
      (tx : RestakeTransaction) (inputs : List Output)
      → validate_restake p tx inputs ≡ done (ok tt)
      → (is_empty tx.txins ≡ false)
        × (map p.digest inputs ≡ tx.txins)
        × Unique tx.txins
        × Unique (map p.digest tx.txouts)
        × ((v : PublicKey) × HaveKey (some v) inputs
            × (p.signing.check_hash (p.digest_tx (restake_transaction tx)) tx.sig v ≡ true))
        × ((w : Option PublicKey) × HaveKey w tx.txouts)
        × All (λ o. validate_output p o ≡ done (ok tt)) tx.txouts
        × (sum_i64 (pos 0) (map stake_amount inputs) ≡ sum_i64 (pos 0) (map stake_amount tx.txouts))
  unfolding validate_restake
  validate_restake_lem tx inputs run =
      let h : Hash = p.digest_tx (restake_transaction tx) in
      let (len, run) = assert-done (length tx.txins == length inputs) _ run in
      let (has_inputs, run) = reject_if-ok (is_empty tx.txins) _ _ run in
      let ((vkey, s), in_run, run) =
        try_then-ok (sum_stakes p h [] none (pos 0) tx.txins inputs) _ run in
      let (digests, unique_in, sum_in, keys, _) =
        sum_stakes-ok h [] none (pos 0) tx.txins inputs (==→≡ (length tx.txins) (length inputs) len)
          in_run in
      elim (Option-cases vkey) [
        | inl nobody ↦ absurd (ground (arith, rw nobody at run))
        | inr (v, owner) ↦
            let (t, out_run, run) =
              try_then-ok (sum_new_stakes p h [] none (pos 0) tx.txouts) _ (rw owner at run) in
            let (balanced, run) = reject_if-ok (not (eq_ℤ s t)) _ _ run in
            let (signed, _) = reject_if-ok (not (p.signing.check_hash h tx.sig v)) _ _ run in
            let (unique_out, sum_out, all, (w, out_keys, _)) =
              sum_new_stakes-ok h [] none (pos 0) tx.txouts out_run in
            (
              has_inputs,
              digests,
              UniqueAfter-Unique [] tx.txins unique_in,
              UniqueAfter-Unique [] (map p.digest tx.txouts) unique_out,
              (v, rw owner at keys, unnot signed),
              (w, out_keys),
              all,
              sym sum_in ∙ eq_ℤ→≡ s t (unnot balanced) ∙ sum_out,
            )
      ]

  valid_stakes-NotNegative :
      (os : List Output) (w : Option PublicKey)
      → HaveKey w os
      → All (λ o. validate_output p o ≡ done (ok tt)) os
      → NotNegative os
  valid_stakes-NotNegative [] w keys all = tt
  valid_stakes-NotNegative (payment_output o ∷ os) w keys all =
      (refl, valid_stakes-NotNegative os w keys.1 all.1)
  valid_stakes-NotNegative (public_payment_output o ∷ os) w keys all =
      (refl, valid_stakes-NotNegative os w keys.1 all.1)
  valid_stakes-NotNegative (stake_output o ∷ os) w keys all =
      let (positive, _) = reject_if-ok (leb_ℤ o.amount (pos 0)) _ _ all.0 in
      (not_negative o.amount positive, valid_stakes-NotNegative os w keys.1 all.1)

  -- If the amounts of the inputs are not negative, and neither these nor the amounts of the outputs
  -- add up to `2 ^ 63` or more, then a restaking that `validate` accepts neither makes nor loses money.
  pub validate_restake-total_amount :
      (tx : RestakeTransaction) (inputs : List Output)
      → NotNegative inputs
      → total_amount inputs < 2 ^ 63
      → total_amount tx.txouts < 2 ^ 63
      → validate_restake p tx inputs ≡ done (ok tt)
      → total_amount inputs ≡ total_amount tx.txouts
  validate_restake-total_amount tx inputs nn fits_in fits_out run =
      let (_, _, _, _, _, (w, keys), all, sum) = validate_restake_lem tx inputs run in
      let total_in = sum_i64_total 0 inputs nn (omega (arith, fits_in)) in
      let total_out =
        sum_i64_total 0 tx.txouts (valid_stakes-NotNegative tx.txouts w keys all)
          (omega (arith, fits_out)) in
      omega (arith, ap pos_part (sym total_in ∙ sum ∙ total_out))
