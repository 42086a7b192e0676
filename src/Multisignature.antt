-- ===== src/Multisignature.antt =====
-- blockchain/src/multisignature.rs: the test for a supermajority, and BLS multi-signatures of the
-- validators with the bitmap of those who signed.
pub mod Supermajority
pub mod Bitmap
pub mod Roundtrip
pub mod Aligned
use stegos.Prelude.{
  ℕ, zero, suc, ◌+◌, ◌/◌, ◌%◌, ◌^◌, ◌≡◌, Bool, true, false, not, Option, none, some, List, [], ◌∷◌,
  map, length, get_elem?, ltb, if◌then◌else◌, Outcome, done, ◌>>=◌, ◌>>◌, assert, unwrap, Result,
  ok, err,
}
use stegos.Prelude.Int.{ℤ, pos, negsuc, sub_ℕ, ltb_ℤ, leb_ℤ, ◌+i64◌}
use stegos.Prelude.Order.{nat_ord}
use stegos.BtreeMap.{BtreeMap, lookup}
use stegos.Crypto.{Hash, PublicKey, Signature, Signing}

-- Division of an `i64` by 3, towards zero.
abbrev div_three : ℤ → ℤ
div_three (pos n) = pos (n / 3)
div_three (negsuc n) = sub_ℕ 0 (suc n / 3)

unfoldable pub check_supermajority : ℤ → ℤ → Outcome Bool
check_supermajority got_votes total_votes = do
  assert (leb_ℤ got_votes total_votes)
  assert (leb_ℤ (pos 0) got_votes)
  assert (ltb_ℤ (pos 0) total_votes)
  let need_votes = div_three (total_votes +i64 total_votes +i64 pos 3)
  done (leb_ℤ need_votes got_votes)

-- `BitVec::from_elem(len, false)`
abbrev pub zeros : ℕ → List Bool
zeros zero = []
zeros (suc n) = false ∷ zeros n

abbrev pub set_bit : List Bool → ℕ → List Bool
set_bit [] i = []
set_bit (b ∷ bs) zero = true ∷ bs
set_bit (b ∷ bs) (suc i) = b ∷ set_bit bs i

pub data MultisignatureError : Type 0 where
  too_big_bitmap : (len validators_len : ℕ) → MultisignatureError
  not_enought_votes : (got_slots total_slots : ℤ) → MultisignatureError
  invalid_signature : Hash → MultisignatureError

module _ (c : Signing) where
  -- The loop over the signatures, with the sum and the bitmap so far.
  unfoldable pub add_signatures :
      ℕ → Signature → List Bool → List (ℕ × Signature) → Outcome (Signature × List Bool)
  add_signatures validators_len multisig multisigmap [] = done (multisig, multisigmap)
  add_signatures validators_len multisig multisigmap ((validator_id, sig) ∷ signatures) = do
    assert (ltb validator_id validators_len)
    bit ← unwrap (get_elem? multisigmap validator_id)
    assert (not bit)
    add_signatures validators_len (c.add_signature multisig sig) (set_bit multisigmap validator_id)
        signatures

  unfoldable pub create_multi_signature_index :
      List (ℕ × Signature) → ℕ → Outcome (Signature × List Bool)
  create_multi_signature_index signatures validators_len =
      add_signatures validators_len c.zero_signature (zeros validators_len) signatures

  -- The validators with a signature, each with its index, counted from `id`, as a `u32`.
  unfoldable pub index_signatures :
      ℕ → List (PublicKey × ℤ) → BtreeMap PublicKey Signature → List (ℕ × Signature)
  index_signatures id [] signatures = []
  index_signatures id ((pk, stake) ∷ validators) signatures =
      let rest = index_signatures (id + 1) validators signatures in
      elim (lookup pk signatures) [ none ↦ rest | some sig ↦ (id % 2 ^ 32, sig) ∷ rest ]

  unfoldable pub create_multi_signature :
      List (PublicKey × ℤ) → BtreeMap PublicKey Signature → Outcome (Signature × List Bool)
  create_multi_signature validators signatures =
      create_multi_signature_index (index_signatures 0 validators signatures) (length validators)

  -- The loop of `check_multi_signature`: the sum of the keys and of the slots of the signers.
  unfoldable pub sum_signers :
      PublicKey → ℤ → List (PublicKey × ℤ) → List Bool → Outcome (PublicKey × ℤ)
  sum_signers multisigpkey group_total_slots ((pkey, slots) ∷ validators) (true ∷ bits) = do
    assert (ltb_ℤ (pos 0) slots)
    sum_signers (c.add_key multisigpkey pkey) (group_total_slots +i64 slots) validators bits
  sum_signers multisigpkey group_total_slots (v ∷ validators) (false ∷ bits) =
      sum_signers multisigpkey group_total_slots validators bits
  sum_signers multisigpkey group_total_slots _ _ = done (multisigpkey, group_total_slots)

  unfoldable pub check_multi_signature :
      Hash
      → Signature
      → List Bool
      → List (PublicKey × ℤ)
      → ℤ
      → Outcome (Result MultisignatureError (Unit {0}))
  check_multi_signature hash multisig multisigmap validators total_slots =
      if ltb (length validators) (length multisigmap)
      then done (err (too_big_bitmap (length multisigmap) (length validators)))
      else (do
        (multipkey, group_total_slots) ← sum_signers c.zero_key (pos 0) validators multisigmap
        super ← check_supermajority group_total_slots total_slots
        done (
            if not super
            then err (not_enought_votes group_total_slots total_slots)
            else (if not (c.check_hash hash multisig multipkey)
                then err (invalid_signature hash)
                else ok tt)))
