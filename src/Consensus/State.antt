-- ===== src/Consensus/State.antt =====
-- consensus/src/state.rs, message.rs and error.rs: the state of the protocol and its messages.
-- `B` stands for what a macro block holds beside its multi-signature (header, inputs, outputs),
-- `P` for a macro block proposal. `start_time`, logs and metrics are left out.
use stegos.Prelude.{ℕ, Bool, Option, List, ◌==◌}
use stegos.Prelude.Int.{ℤ}
use stegos.BtreeMap.{BtreeMap}
use stegos.Crypto.{Hash, PublicKey, SecretKey, Signature, Signing}
use stegos.Election.{ElectionResult}

pub data ConsensusState : Type 0 where
  propose prevote precommit commit : ConsensusState

-- `derive(PartialOrd)`: the place in the declaration.
abbrev pub ordinal : ConsensusState → ℕ
ordinal ConsensusState.propose = 0
ordinal ConsensusState.prevote = 1
ordinal ConsensusState.precommit = 2
ordinal ConsensusState.commit = 3

abbrev pub is_state : ConsensusState → ConsensusState → Bool
is_state s t = ordinal s == ordinal t

pub data ConsensusMessageBody (P : Type 0) : Type 0 where
  proposal : P → ConsensusMessageBody P
  prevote : ConsensusMessageBody P
  precommit : Signature → ConsensusMessageBody P

pub data MessageName : Type 0 where
  proposal prevote precommit : MessageName

abbrev pub name : {P : Type 0} → ConsensusMessageBody P → MessageName
name (ConsensusMessageBody.proposal p) = MessageName.proposal
name ConsensusMessageBody.prevote = MessageName.prevote
name (ConsensusMessageBody.precommit sig) = MessageName.precommit

pub record ConsensusMessage (P : Type 0) : Type 0 where
  pub round : ℕ
  pub epoch : ℕ
  pub block_hash : Hash
  pub body : ConsensusMessageBody P
  pub pkey : PublicKey
  pub sig : Signature

pub data ConsensusError : Type 0 where
  unknown_message_peer : PublicKey → ConsensusError
  invalid_message_signature : ConsensusError
  invalid_request_hash : (expected got : Hash) (pkey : PublicKey) → ConsensusError
  invalid_message : ConsensusState → MessageName → ConsensusError
  proposal_from_non_leader : Hash → (expected got : PublicKey) → ConsensusError
  invalid_request_signature : Hash → ConsensusError

pub record MacroBlock (B : Type 0) : Type 0 where
  pub content : B
  pub multisig : Signature
  pub multisigmap : List Bool

pub record LockedRound (B P : Type 0) : Type 0 where
  pub precommits : BtreeMap PublicKey Signature
  pub block : MacroBlock B
  pub block_proposal : P

pub record Consensus (B P : Type 0) : Type 0 where
  pub skey : SecretKey
  pub pkey : PublicKey
  pub validators : BtreeMap PublicKey ℤ
  pub total_slots : ℤ
  pub epoch : ℕ
  pub election_result : ElectionResult
  pub state : ConsensusState
  pub round : ℕ
  pub block : Option (MacroBlock B)
  pub block_hash : Option Hash
  pub block_proposal : Option P
  pub locked_round : Option (LockedRound B P)
  pub prevotes : BtreeMap PublicKey Signature
  pub precommits : BtreeMap PublicKey Signature
  pub inbox : List (ConsensusMessage P)
  pub outbox : List (ConsensusMessage P)

-- Hashing and signing, which the protocol calls. The digest of a macro block is that of its header.
pub record Env (B P : Type 0) : Type 0 where
  pub signing : Signing
  pub mix : Hash → ℕ → Hash
  pub block_digest : B → Hash
  pub proposal_digest : P → Hash
  pub message_digest : ℕ → ℕ → Hash → ConsensusMessageBody P → Hash

module _ {B P : Type 0} (env : Env B P) where
  -- `ConsensusMessage::new`
  abbrev pub new_message :
      ℕ → ℕ → Hash → SecretKey → PublicKey → ConsensusMessageBody P → ConsensusMessage P
  new_message epoch round block_hash skey pkey body = record {
    round = round;
    epoch = epoch;
    block_hash = block_hash;
    body = body;
    pkey = pkey;
    sig = env.signing.sign_hash (env.message_digest epoch round block_hash body) skey;
  }

  -- `ConsensusMessage::validate`, as a test
  abbrev pub validate : ConsensusMessage P → Bool
  validate msg =
      env.signing.check_hash (env.message_digest msg.epoch msg.round msg.block_hash msg.body)
        msg.sig msg.pkey
