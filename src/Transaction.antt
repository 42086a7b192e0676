-- ===== src/Transaction.antt =====
-- blockchain/src/output.rs and blockchain/src/transaction.rs: outputs and transactions.
pub mod Validate
use stegos.Prelude.{
  ℕ, ◌≡◌, Bool, true, false, ◌==◌, ◌||◌, Option, none, some, List, [], ◌∷◌, length, if◌then◌else◌,
  not, Outcome, done, panicked, ◌>>=◌, ◌>>◌, assert, Result, ok, err, reject_if,
}
use stegos.Prelude.Int.{ℤ, pos, ltb_ℤ, leb_ℤ}
use stegos.Crypto.{Hash, PublicKey, Signature, Signing}

-- Points of the curve, scalars and Schnorr signatures, each as the number that its bytes are.
abbrev pub Pt : Type 0
Pt = ℕ

abbrev pub Fr : Type 0
Fr = ℕ

abbrev pub SchnorrSig : Type 0
SchnorrSig = ℕ

abbrev pub AccountKey : Type 0
AccountKey = ℕ

-- A range proof. `vcmt` is the Pedersen commitment in it.
pub record BulletProof : Type 0 where
  pub vcmt : Pt
  pub bytes : List ℕ

pub record PaymentOutput : Type 0 where
  pub recipient : AccountKey
  pub proof : BulletProof
  pub ag : Pt
  pub payload : List ℕ

pub record PublicPaymentOutput : Type 0 where
  pub recipient : AccountKey
  pub serno : ℤ
  pub amount : ℤ

pub record StakeOutput : Type 0 where
  pub recipient : AccountKey
  pub validator : PublicKey
  pub amount : ℤ
  pub serno : ℤ
  pub signature : Signature

pub data Output : Type 0 where
  payment_output : PaymentOutput → Output
  public_payment_output : PublicPaymentOutput → Output
  stake_output : StakeOutput → Output

-- A micro block, as far as a proof of slashing reads it.
pub record MicroBlock : Type 0 where
  pub epoch : ℕ
  pub offset : ℕ
  pub previous : Hash
  pub view_change : ℕ
  pub pkey : PublicKey
  pub content : List ℕ
  pub sig : Signature

pub record SlashingProof : Type 0 where
  pub block1 : MicroBlock
  pub block2 : MicroBlock

pub record CoinbaseTransaction : Type 0 where
  pub block_reward : ℤ
  pub block_fee : ℤ
  pub gamma : Fr
  pub txouts : List Output

pub record PaymentTransaction : Type 0 where
  pub txins : List Hash
  pub txouts : List Output
  pub gamma : Fr
  pub fee : ℤ
  pub sig : SchnorrSig

pub record RestakeTransaction : Type 0 where
  pub txins : List Hash
  pub txouts : List Output
  pub sig : Signature

pub record SlashingTransaction : Type 0 where
  pub proof : SlashingProof
  pub txins : List Hash
  pub txouts : List Output

pub record ServiceAwardTransaction : Type 0 where
  pub winner_reward : List Output

pub data Transaction : Type 0 where
  coinbase_transaction : CoinbaseTransaction → Transaction
  payment_transaction : PaymentTransaction → Transaction
  restake_transaction : RestakeTransaction → Transaction
  slashing_transaction : SlashingTransaction → Transaction
  service_award_transaction : ServiceAwardTransaction → Transaction

abbrev pub fee : Transaction → ℤ
fee (payment_transaction tx) = tx.fee
fee _ = pos 0

abbrev pub txins : Transaction → List Hash
txins (payment_transaction tx) = tx.txins
txins (restake_transaction tx) = tx.txins
txins (slashing_transaction tx) = tx.txins
txins _ = []

abbrev pub txouts : Transaction → List Output
txouts (coinbase_transaction tx) = tx.txouts
txouts (payment_transaction tx) = tx.txouts
txouts (restake_transaction tx) = tx.txouts
txouts (slashing_transaction tx) = tx.txouts
txouts (service_award_transaction tx) = tx.winner_reward

-- The digests, the curve and the signatures over it, which crypto/src takes from other packages.
-- `commit` is `simple_commit`, and `commit_amount` the commitment of `fee_a`.
pub record Primitives : Type 0 where
  pub signing : Signing
  pub digest : Output → Hash
  pub digest_tx : Transaction → Hash
  pub digest_block : MicroBlock → Hash
  pub inf : Pt
  pub add : Pt → Pt → Pt
  pub sub : Pt → Pt → Pt
  pub commit : Fr → ℤ → Pt
  pub commit_amount : ℤ → Pt
  pub blind : Fr → Pt
  pub point : AccountKey → Pt
  pub validate_range_proof : BulletProof → Bool
  pub validate_sig : Hash → SchnorrSig → Pt → Bool

pub data OutputError : Type 0 where
  invalid_bullet_proof : Hash → OutputError
  invalid_payload_length : Hash → (expected got : ℕ) → OutputError
  invalid_amount : Hash → ℤ → OutputError
  invalid_stake_signature : Hash → OutputError

pub data TransactionError : Type 0 where
  invalid_signature : Hash → TransactionError
  invalid_monetary_balance : Hash → TransactionError
  negative_fee : Hash → TransactionError
  negative_reward : Hash → TransactionError
  no_inputs : Hash → TransactionError
  missing_input : (tx_hash utxo : Hash) → TransactionError
  duplicate_input : (tx_hash utxo : Hash) → TransactionError
  duplicate_output : (tx_hash utxo : Hash) → TransactionError
  output_hash_collision : (tx_hash utxo : Hash) → TransactionError
  received_invalid_transaction : TransactionError
  non_payment_output_in_coinbase : (tx_hash utxo : Hash) → TransactionError
  invalid_restaking_input : (tx_hash utxo : Hash) → TransactionError
  mixed_restaking_owners : (tx_hash utxo : Hash) → TransactionError
  no_restaking_txins : Hash → TransactionError
  invalid_restaking_output : (tx_hash utxo : Hash) → TransactionError
  output_error : OutputError → TransactionError

-- PAYMENT_PAYLOAD_LEN
abbrev pub payment_payload_len : ℕ
payment_payload_len = 1024

module _ (p : Primitives) where
  abbrev pub fee_a : ℤ → Outcome Pt
  fee_a val = do assert (leb_ℤ (pos 0) val); done (p.commit_amount val)

  abbrev pub pedersen_commitment : Output → Outcome Pt
  pedersen_commitment (payment_output o) = done (o.proof.vcmt)
  pedersen_commitment (public_payment_output o) = fee_a o.amount
  pedersen_commitment (stake_output o) = fee_a o.amount

  abbrev pub recipient_pkey : Output → Pt
  recipient_pkey (payment_output o) = p.point o.recipient
  recipient_pkey (public_payment_output o) = p.point o.recipient
  recipient_pkey (stake_output o) = p.point o.recipient

  -- `Output::validate`
  abbrev pub validate_output : Output → Outcome (Result TransactionError (Unit {0}))
  validate_output (payment_output o) =
      let h = p.digest (payment_output o) in
      reject_if (not (p.validate_range_proof o.proof)) (output_error (invalid_bullet_proof h)) (
        reject_if (not (length o.payload == payment_payload_len))
          (output_error (invalid_payload_length h payment_payload_len (length o.payload)))
          (done (ok tt)))
  validate_output (public_payment_output o) =
      let h = p.digest (public_payment_output o) in
      reject_if (leb_ℤ o.amount (pos 0)) (output_error (invalid_amount h o.amount)) (done (ok tt))
  validate_output (stake_output o) =
      let h = p.digest (stake_output o) in
      reject_if (leb_ℤ o.amount (pos 0)) (output_error (invalid_amount h o.amount)) (
        reject_if (not (p.signing.check_hash h o.signature o.validator))
          (output_error (invalid_stake_signature h)) (done (ok tt)))
