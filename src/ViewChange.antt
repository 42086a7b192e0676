-- ===== src/ViewChange.antt =====
-- consensus/src/optimistic.rs and blockchain/src/view_changes.rs: the change of the leader of micro
-- blocks, once the validators with more than two thirds of the slots ask for it.
pub mod Collected
pub mod Checked
pub mod Proved
pub mod TimedOut
use stegos.Prelude.{
  ℕ, suc, ◌+◌, ◌%◌, ◌^◌, ◌≡◌, Bool, true, false, not, ◌==◌, Option, none, some, List, [], ◌∷◌, map,
  length, get_elem?, ltb, if◌then◌else◌, Outcome, done, ◌>>=◌, unwrap, Result, ok, err, reject_if,
}
use stegos.Prelude.Int.{ℤ, pos, ◌+i64◌}
use stegos.Prelude.Order.{nat_ord}
use stegos.BtreeMap.{BtreeMap, lookup, insert, contains_key}
use stegos.Crypto.{Hash, PublicKey, SecretKey, Signature, Signing}
use stegos.Multisignature.{
  check_supermajority, create_multi_signature_index, check_multi_signature, MultisignatureError,
}

-- `view_change` is the type `ViewCounter`, a `u32`.
pub record ChainInfo : Type 0 where
  pub epoch : ℕ
  pub offset : ℕ
  pub view_change : ℕ
  pub last_block : Hash

pub record ViewChangeMessage : Type 0 where
  pub chain : ChainInfo
  pub validator_id : ℕ
  pub signature : Signature

pub record ViewChangeProof : Type 0 where
  pub multimap : List Bool
  pub multisig : Signature

pub record ViewChangeCollector : Type 0 where
  pub actual_view_changes : BtreeMap ℕ ViewChangeMessage
  pub collected_slots : ℤ
  pub validator_id : ℕ
  pub pkey : PublicKey
  pub skey : SecretKey

pub data ConsensusError : Type 0 where
  invalid_view_change_epoch : (got expected : ℕ) → ConsensusError
  invalid_validator_id : ℕ → ConsensusError
  invalid_view_change_signature : ConsensusError
  view_change_offset_from_the_past : (got expected : ℕ) → ConsensusError
  view_change_offset_from_the_future : (got expected : ℕ) → ConsensusError
  invalid_last_block_hash : (got expected : Hash) → ConsensusError
  view_change_number_from_the_past : (got expected : ℕ) → ConsensusError
  view_change_number_from_the_future : (got expected : ℕ) → ConsensusError

-- What is read of the blockchain. `validators_by_offset` are those of `election_result_by_offset`,
-- and `digest` is the hash of a `ChainInfo`.
pub record Blockchain (StorageError : Type 0) : Type 0 where
  pub epoch : ℕ
  pub offset : ℕ
  pub view_change : ℕ
  pub last_block_hash : Hash
  pub validators : List (PublicKey × ℤ)
  pub total_slots : ℤ
  pub validators_by_offset : ℕ → Result StorageError (List (PublicKey × ℤ))
  pub digest : ChainInfo → Hash

module _ {StorageError : Type 0} where
  abbrev pub from_blockchain : Blockchain StorageError → ChainInfo
  from_blockchain chain = record {
    epoch = chain.epoch;
    offset = chain.offset;
    view_change = chain.view_change;
    last_block = chain.last_block_hash;
  }

  -- `validator_key_by_id`, with the slots.
  abbrev pub validator_by_id : Blockchain StorageError → ℕ → Option (PublicKey × ℤ)
  validator_by_id chain id = get_elem? chain.validators id

-- The place of the node among the validators, counted from `id`.
unfoldable pub find_validator : ℕ → PublicKey → List (PublicKey × ℤ) → Option ℕ
find_validator id pkey [] = none
find_validator id pkey (v ∷ validators) =
    let rest = find_validator (id + 1) pkey validators in
    if v.0 == pkey then some (id % 2 ^ 32) else rest

-- The signatures of the messages, each with the index of its validator.
abbrev pub message_signatures : BtreeMap ℕ ViewChangeMessage → List (ℕ × Signature)
message_signatures [] = []
message_signatures ((id, message) ∷ messages) =
    (id, message.signature) ∷ message_signatures messages

module _ {StorageError : Type 0} (c : Signing) (chain : Blockchain StorageError) where
  unfoldable pub new : PublicKey → SecretKey → Outcome ViewChangeCollector
  new pkey skey = do
    validator_id ← unwrap (find_validator 0 pkey chain.validators)
    done (record {
      actual_view_changes = [];
      collected_slots = pos 0;
      validator_id = validator_id;
      pkey = pkey;
      skey = skey;
    })

  -- `ViewChangeMessage::new`
  abbrev pub new_message : ChainInfo → ℕ → SecretKey → ViewChangeMessage
  new_message info validator_id skey = record {
    chain = info;
    validator_id = validator_id;
    signature = c.sign_hash (chain.digest info) skey;
  }

  abbrev pub handle_timeout : ViewChangeCollector → ChainInfo → ViewChangeMessage
  handle_timeout s info = new_message info s.validator_id s.skey

  -- The checks of a message, up to the slots of its validator.
  unfoldable pub check_message : ViewChangeMessage → Outcome (Result ConsensusError ℤ)
  check_message message =
      let info = message.chain in
      reject_if (not (info.epoch == chain.epoch)) (invalid_view_change_epoch info.epoch chain.epoch)
        (elim (validator_by_id chain message.validator_id) [
          | none ↦ done (err (invalid_validator_id message.validator_id))
          | some (pkey, slots) ↦
              reject_if (not (c.check_hash (chain.digest info) message.signature pkey))
                invalid_view_change_signature
                (reject_if (ltb info.offset chain.offset)
                  (view_change_offset_from_the_past info.offset chain.offset)
                  (reject_if (ltb chain.offset info.offset)
                    (view_change_offset_from_the_future info.offset chain.offset)
                    (reject_if (not (info.last_block == chain.last_block_hash))
                      (invalid_last_block_hash info.last_block chain.last_block_hash)
                      (reject_if (ltb info.view_change chain.view_change)
                        (view_change_number_from_the_past info.view_change chain.view_change)
                        (reject_if (ltb chain.view_change info.view_change)
                          (view_change_number_from_the_future info.view_change chain.view_change)
                          (done (ok slots)))))))
        ])

  -- The message is kept, unless its validator has sent one before.
  unfoldable pub add_message : ViewChangeMessage → ℤ → ViewChangeCollector → ViewChangeCollector
  add_message message slots s =
      if contains_key message.validator_id s.actual_view_changes then s else record s {
        actual_view_changes = insert message.validator_id message s.actual_view_changes;
        collected_slots = s.collected_slots +i64 slots;
      }

  -- The proof, once there are enough slots; the collector then starts again.
  unfoldable pub make_proof :
      ViewChangeCollector → Outcome (ViewChangeCollector × Option ViewChangeProof)
  make_proof s = do
    super_majority ← check_supermajority s.collected_slots chain.total_slots
    if not super_majority then done (s, none) else (do
      (multisig, multimap) ←
          create_multi_signature_index c (message_signatures s.actual_view_changes)
            (length chain.validators)
      done (
          (
            record s { actual_view_changes = []; collected_slots = pos 0 },
            some (record { multimap = multimap; multisig = multisig }),
          )))

  unfoldable pub handle_message :
      ViewChangeMessage
      → ViewChangeCollector
      → Outcome (ViewChangeCollector × Result ConsensusError (Option ViewChangeProof))
  handle_message message s = do
    checked ← check_message message
    elim checked [
      | err e ↦ done (s, err e)
      | ok slots ↦ do (s, proof) ← make_proof (add_message message slots s); done (s, ok proof)
    ]

  -- An error of the check is one of the storage or one of the multi-signature.
  pub data ProofError : Type 0 where
    storage_error : StorageError → ProofError
    multisignature_error : MultisignatureError → ProofError

  abbrev pub to_proof_error : Result MultisignatureError (Unit {0}) → Result ProofError (Unit {0})
  to_proof_error (ok u) = ok u
  to_proof_error (err e) = err (multisignature_error e)

  -- `ViewChangeProof::validate`
  unfoldable pub validate : ViewChangeProof → ChainInfo → Outcome (Result ProofError (Unit {0}))
  validate proof info = elim (chain.validators_by_offset info.offset) [
    | err e ↦ done (err (storage_error e))
    | ok validators ↦ do
      result ←
          check_multi_signature c (chain.digest info) proof.multisig proof.multimap validators
            chain.total_slots
      done (to_proof_error result)
  ]
