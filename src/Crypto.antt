-- ===== src/Crypto.antt =====
-- The cryptography under the node, as parameters: crypto/src/hash and crypto/src/pbc stand on
-- foreign code. A hash, a key and a signature are byte strings of fixed length, read as numbers
-- in big-endian order, so that their order is the order of the numbers.
use stegos.Prelude.{ℕ, ◌≡◌, Bool, true}

abbrev pub Hash : Type 0
Hash = ℕ

abbrev pub PublicKey : Type 0
PublicKey = ℕ

abbrev pub SecretKey : Type 0
SecretKey = ℕ

abbrev pub Signature : Type 0
Signature = ℕ

-- BLS signatures over a hash. `public_key` is the key that belongs to a secret key.
pub record Signing : Type 0 where
  pub sign_hash : Hash → SecretKey → Signature
  pub check_hash : Hash → Signature → PublicKey → Bool
  pub public_key : SecretKey → PublicKey
  pub add_signature : Signature → Signature → Signature
  pub zero_signature : Signature
  pub add_key : PublicKey → PublicKey → PublicKey
  pub zero_key : PublicKey

-- What the protocol asks of a signature scheme: a key's own signature passes its check.
pub record IsSound (c : Signing) : Type 0 where
  pub check_sign :
      (h : Hash) (k : SecretKey) → c.check_hash h (c.sign_hash h k) (c.public_key k) ≡ true
