-- ===== src/Tests/Network.antt =====
-- A small network: four validators with one slot each, and signatures that are products.
use stegos.Prelude.{ℕ, ◌+◌, ◌*◌, ◌^◌, ◌≡◌, ◌==◌, ==→≡, ==_refl, true, List, [], ◌∷◌, arith}
use native.Mathlib.Nat.{mul-add}
use stegos.Crypto.{PublicKey, SecretKey, Signing, IsSound}
use stegos.Election.{ElectionResult}
use stegos.Election.Winner.{slots}
use stegos.Multisignature.Roundtrip.{IsAdditive}
use stegos.Consensus.State.{ConsensusMessageBody, ConsensusMessage, MacroBlock, Env, new_message}
use stegos.Consensus.Invariant.{IsGroup}

abbrev pub toy : Signing
toy = record {
  sign_hash = λ h k. h * k;
  check_hash = λ h s k. s == h * k;
  public_key = λ k. k;
  add_signature = λ s t. s + t;
  zero_signature = 0;
  add_key = λ j k. j + k;
  zero_key = 0;
}

pub toy-IsSound : IsSound toy
toy-IsSound = record { check_sign = λ h k. ==_refl (h * k) }

toy-add :
    (h s t j k : ℕ) → (s == h * j) ≡ true → (t == h * k) ≡ true → (s + t == h * (j + k)) ≡ true
toy-add h s t j k a b =
    rw (==→≡ s (h * j) a, ==→≡ t (h * k) b, mul-add h j k) (==_refl (h * j + h * k))

pub toy-IsAdditive : IsAdditive toy
toy-IsAdditive = record { check_zero = λ h. ground arith; check_add = toy-add }

abbrev pub world : Env ℕ ℕ
world = record {
  signing = toy;
  mix = λ h n. h + n * 2 ^ 184;
  block_digest = λ b. b;
  proposal_digest = λ p. p;
  message_digest = λ epoch round h body. epoch + round + h + 1;
}

abbrev pub group : List (PublicKey × ℕ)
group = (1, 1) ∷ (2, 1) ∷ (3, 1) ∷ (4, 1) ∷ []

pub group-IsGroup : IsGroup group group
group-IsGroup = record {
  some_slot = omega arith;
  fits = omega arith;
  some_leader = omega arith;
  indexed = omega arith;
  leaders_fit = omega arith;
}

-- Validator 1 leads round 0.
abbrev pub elected : ElectionResult
elected = record { random = 0; view_change = 0; validators = slots group; facilitator = 1 }

abbrev pub from : SecretKey → ConsensusMessageBody ℕ → ConsensusMessage ℕ
from key body = new_message world 0 0 7 key key body

abbrev pub block_7 : MacroBlock ℕ
block_7 = record { content = 7; multisig = 0; multisigmap = [] }
