-- ===== src/Tests/Payments.antt =====
-- Concrete payments and restakings.
use stegos.Prelude.{
  ℕ, suc, ◌+◌, ◌-◌, ◌^◌, ◌/◌, ◌%◌, ◌≡◌, refl, sym, ap, ◌∙◌, ◌==◌, is_empty, All, true, false,
  if◌then◌else◌, [], ◌∷◌, map, Option, some, done, ok, arith,
}
use stegos.Prelude.Int.{ℤ, pos, negsuc, ltb_ℤ, ◌+ℤ◌, ◌-ℤ◌, ◌+i64◌, i64, pos_part}
use stegos.Crypto.{Hash, PublicKey, Signing}
use stegos.Transaction.{
  Output, payment_output, public_payment_output, stake_output, PaymentTransaction,
  RestakeTransaction, Transaction, payment_transaction, restake_transaction, Primitives,
  recipient_pkey, validate_output,
}
use stegos.Transaction.Validate.{
  validate_payment, validate_restake, sum_inputs, sum_outputs, sum_stakes, sum_new_stakes,
}
use stegos.Transaction.Validate.Payment.{IsGroup, total, commitment, validate_payment_lem}
use stegos.Transaction.Validate.Unique.{Unique}
use stegos.Transaction.Validate.Restake.{
  HaveKey, stake_amount, sum_i64, total_amount, validate_restake_lem, validate_restake-total_amount,
}

unfoldable pub code : ℤ → ℕ
code (pos n) = n + n
code (negsuc n) = suc (n + n)

unfoldable pub decode : ℕ → ℤ
decode n = if n % 2 == 0 then pos (n / 2) else negsuc (n / 2)

decode-code : (z : ℤ) → decode (code z) ≡ z
unfolding decode code
decode-code (pos n) = ground arith
decode-code (negsuc n) = ground arith

code-decode : (n : ℕ) → code (decode n) ≡ n
unfolding decode code
code-decode n = ground arith

plus_assoc : (a b c : ℤ) → (a +ℤ b) +ℤ c ≡ a +ℤ (b +ℤ c)
unfolding ◌+ℤ◌
plus_assoc a b c = ground arith

plus_comm : (a b : ℤ) → a +ℤ b ≡ b +ℤ a
unfolding ◌+ℤ◌
plus_comm a b = ground arith

plus_zero : (a : ℤ) → a +ℤ pos 0 ≡ a
unfolding ◌+ℤ◌
plus_zero a = ground arith

minus_plus : (a b : ℤ) → (a -ℤ b) +ℤ b ≡ a
unfolding ◌+ℤ◌ ◌-ℤ◌
minus_plus a b = ground arith

plus_minus : (a b : ℤ) → (a +ℤ b) -ℤ b ≡ a
unfolding ◌+ℤ◌ ◌-ℤ◌
plus_minus a b = ground arith

-- Signatures that always hold.
abbrev any_signature : Signing
any_signature = record {
  sign_hash = λ h k. h;
  check_hash = λ h s k. true;
  public_key = λ k. k;
  add_signature = λ s t. s + t;
  zero_signature = 0;
  add_key = λ j k. j + k;
  zero_key = 0;
}

abbrev digest : Output → Hash
digest (payment_output o) = o.ag
digest (public_payment_output o) = pos_part o.serno
digest (stake_output o) = pos_part o.serno

abbrev digest_tx : Transaction → Hash
digest_tx (payment_transaction tx) = tx.sig
digest_tx (restake_transaction tx) = tx.sig
digest_tx _ = 0

-- The integers as the curve.
abbrev pub primitives : Primitives
primitives = record {
  signing = any_signature;
  digest = digest;
  digest_tx = digest_tx;
  digest_block = λ b. b.epoch + b.offset;
  inf = 0;
  add = λ a b. code (decode a +ℤ decode b);
  sub = λ a b. code (decode a -ℤ decode b);
  commit = λ gamma amount. code amount;
  commit_amount = code;
  blind = λ gamma. 0;
  point = λ key. key;
  validate_range_proof = λ proof. true;
  validate_sig = λ h sig key. true;
}

primitives-IsGroup : IsGroup primitives
unfolding code decode
primitives-IsGroup = record {
  add_assoc = λ a b c. ap code (
      ap (λ z. z +ℤ decode c) (decode-code (decode a +ℤ decode b))
      ∙ plus_assoc (decode a) (decode b) (decode c)
      ∙ sym (ap (λ z. decode a +ℤ z) (decode-code (decode b +ℤ decode c))));
  add_comm = λ a b. ap code (plus_comm (decode a) (decode b));
  add_inf = λ a. ap code (plus_zero (decode a)) ∙ code-decode a;
  add_sub = λ a b.
      ap code (
        ap (λ z. z +ℤ decode b) (decode-code (decode a -ℤ decode b))
        ∙ minus_plus (decode a) (decode b))
      ∙ code-decode a;
  sub_add = λ a b.
      ap code (
        ap (λ z. z -ℤ decode b) (decode-code (decode a +ℤ decode b))
        ∙ plus_minus (decode a) (decode b))
      ∙ code-decode a;
}

abbrev pub public : (serno recipient amount : ℕ) → Output
public serno recipient amount =
    public_payment_output (record { recipient = recipient; serno = pos serno; amount = pos amount })

abbrev pub stake : (serno amount : ℕ) → Output
stake serno amount =
    stake_output (record {
      recipient = 5;
      validator = 7;
      amount = pos amount;
      serno = pos serno;
      signature = 0;
    })

abbrev pub payment : PaymentTransaction
payment = record { txins = 1 ∷ []; txouts = public 2 6 7 ∷ []; gamma = 0; fee = pos 3; sig = 100 }

abbrev pub restake : RestakeTransaction
restake = record { txins = 1 ∷ []; txouts = stake 2 4 ∷ stake 3 6 ∷ []; sig = 100 }

-- Amounts whose sum is 10 in an `i64`.
abbrev inflating : RestakeTransaction
inflating = record {
  txins = 1 ∷ [];
  txouts = stake 2 (2 ^ 63 - 1) ∷ stake 3 (2 ^ 63 - 1) ∷ stake 4 12 ∷ [];
  sig = 100;
}

payment-valid : validate_payment primitives payment (public 1 5 10 ∷ []) ≡ done (ok tt)
unfolding validate_payment sum_inputs sum_outputs code decode ◌+ℤ◌ ◌-ℤ◌
payment-valid = refl

restake-valid : validate_restake primitives restake (stake 1 10 ∷ []) ≡ done (ok tt)
unfolding validate_restake sum_stakes sum_new_stakes ◌+i64◌ ◌+ℤ◌ i64
restake-valid = refl

-- More than there was, and accepted.
inflating-valid : validate_restake primitives inflating (stake 1 10 ∷ []) ≡ done (ok tt)
unfolding validate_restake sum_stakes sum_new_stakes ◌+i64◌ ◌+ℤ◌ i64
inflating-valid = refl

validate_payment_lem_example :
    (is_empty payment.txins ≡ false)
    × (ltb_ℤ payment.fee (pos 0) ≡ false)
    × (map primitives.digest (public 1 5 10 ∷ []) ≡ payment.txins)
    × Unique payment.txins
    × Unique (map primitives.digest payment.txouts)
    × (total primitives (map (commitment primitives) (public 1 5 10 ∷ []))
        ≡ primitives.add
            (total primitives (map (commitment primitives) payment.txouts))
            (primitives.commit payment.gamma payment.fee))
    × (primitives.validate_sig
          (primitives.digest_tx (payment_transaction payment))
          payment.sig
          (total primitives (map (recipient_pkey primitives) (public 1 5 10 ∷ [])))
        ≡ true)
validate_payment_lem_example =
    validate_payment_lem primitives primitives-IsGroup payment (public 1 5 10 ∷ []) payment-valid

validate_restake_lem_example :
    (is_empty restake.txins ≡ false)
    × (map primitives.digest (stake 1 10 ∷ []) ≡ restake.txins)
    × Unique restake.txins
    × Unique (map primitives.digest restake.txouts)
    × ((v : PublicKey) × HaveKey (some v) (stake 1 10 ∷ [])
        × (primitives.signing.check_hash
              (primitives.digest_tx (restake_transaction restake))
              restake.sig
              v
            ≡ true))
    × ((w : Option PublicKey) × HaveKey w restake.txouts)
    × All (λ o. validate_output primitives o ≡ done (ok tt)) restake.txouts
    × (sum_i64 (pos 0) (map stake_amount (stake 1 10 ∷ []))
        ≡ sum_i64 (pos 0) (map stake_amount restake.txouts))
validate_restake_lem_example =
    validate_restake_lem primitives restake (stake 1 10 ∷ []) restake-valid

validate_restake-total_amount_example : total_amount (stake 1 10 ∷ []) ≡ total_amount restake.txouts
validate_restake-total_amount_example =
    validate_restake-total_amount primitives restake (stake 1 10 ∷ []) (refl, tt) (ground arith)
      (ground arith) restake-valid
