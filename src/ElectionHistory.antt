-- ===== src/ElectionHistory.antt =====
-- blockchain/src/blockchain.rs: the election result that the chain keeps with its versions, and how
-- it changes within an epoch. A sequence number is an epoch with an offset.
pub mod Past
use stegos.Prelude.{
  ℕ, ◌+◌, ◌-◌, ◌%◌, ◌^◌, ◌≤◌, ◌≡◌, Bool, not, ◌==◌, Option, none, some, List, [], ◌∷◌, ltb, leb,
  if◌then◌else◌, Outcome, done, ◌>>=◌, ◌>>◌, assert, unwrap, Ordering, arith,
}
use Prim.Native.Nat.Ordering.{eq}
use stegos.Prelude.Int.{ℤ}
use stegos.Prelude.Order.{Ord, IsOrder, pair_ord, gt?}
use stegos.Crypto.{Hash, PublicKey}
use stegos.Election.{ElectionResult}
use stegos.Escrow.{Lsn}
use stegos.Mvcc
use stegos.Mvcc.{MultiVersionedMap, get, current_lsn, rollback_to_lsn}
use stegos.ViewChange.{ViewChangeProof}

abbrev pub unit_cmp : Unit {0} → Unit {0} → Ordering
unit_cmp a b = eq

pub unit_cmp-IsOrder : IsOrder unit_cmp
unit_cmp-IsOrder = ground arith

-- `Ord` of `()`, the one key of the map.
instance abbrev pub unit_ord : Ord (Unit {0})
unit_ord = record { cmp = unit_cmp; is_order = unit_cmp-IsOrder }

abbrev pub Results : Type 0
Results = MultiVersionedMap (Unit {0}) ElectionResult Lsn

-- The fields of the blockchain that this part reads and changes.
pub record Chain : Type 0 where
  pub epoch : ℕ
  pub offset : ℕ
  pub election_result : Results
  pub view_change_proof : Option ViewChangeProof

-- MACRO_BLOCK_OFFSET
abbrev pub macro_block_offset : ℕ
macro_block_offset = 2 ^ 32 - 1

unfoldable pub election_result : Chain → Outcome ElectionResult
election_result s = unwrap (get tt s.election_result)

unfoldable pub view_change : Chain → Outcome ℕ
view_change s = do result ← election_result s; done result.view_change

-- A changed election result, inserted under the current sequence number.
unfoldable pub insert_result : ElectionResult → Chain → Outcome Chain
insert_result result s = do
  (results, _) ← Mvcc.insert (s.epoch, s.offset) tt result s.election_result
  done (record s { election_result = results })

unfoldable pub set_view_change : ℕ → ViewChangeProof → Chain → Outcome Chain
set_view_change new_view_change proof s = do
  view ← view_change s
  assert (ltb view new_view_change)
  result ← election_result s
  t ← insert_result (record result { view_change = new_view_change }) s
  done (record t { view_change_proof = some proof })

unfoldable pub reset_view_change : Chain → Outcome Chain
reset_view_change s = do
  result ← election_result s
  t ← insert_result (record result { view_change = 0 }) s
  done (record t { view_change_proof = none })

-- The validators but for the cheater.
unfoldable pub remove_validator : PublicKey → List (PublicKey × ℤ) → List (PublicKey × ℤ)
remove_validator cheater [] = []
remove_validator cheater (v ∷ validators) =
    let rest = remove_validator cheater validators in
    if not (v.0 == cheater) then v ∷ rest else rest

-- A slashing transaction in a micro block.
unfoldable pub slash : PublicKey → Chain → Outcome Chain
slash cheater s = do
  result ← election_result s
  insert_result (record result { validators = remove_validator cheater result.validators }) s

-- The end of `register_micro_block`; the result stands under the offset of the block.
unfoldable pub finish_micro_block : (random : Hash) → Chain → Outcome Chain
finish_micro_block random s = do
  result ← election_result s
  t ← insert_result (record result { view_change = 0; random = random }) s
  done (record t { offset = (s.offset + 1) % 2 ^ 32; view_change_proof = none })

-- The sequence number after which the blocks with this offset come.
unfoldable pub lsn_before : (epoch offset : ℕ) → Lsn
lsn_before epoch offset =
    if offset == 0 then (epoch - 1, macro_block_offset) else (epoch, offset - 1)

unfoldable pub election_result_by_offset : ℕ → Chain → Outcome ElectionResult
election_result_by_offset offset s = do
  assert (ltb 0 s.epoch)
  assert (leb offset s.offset)
  let lsn = lsn_before s.epoch offset
  election ← rollback_to_lsn lsn s.election_result
  assert (not (gt? (current_lsn election) lsn))
  unwrap (get tt election)

-- The changes of the election result within an epoch.
pub data Step (s : Chain) : Chain → Type 0 where
  sets_view_change :
      (view : ℕ) (proof : ViewChangeProof) {t : Chain}
      → set_view_change view proof s ≡ done t
      → Step s t
  resets_view_change : {t : Chain} → reset_view_change s ≡ done t → Step s t
  slashes : (cheater : PublicKey) {t : Chain} → slash cheater s ≡ done t → Step s t
  finishes_block :
      (random : Hash) {t : Chain}
      → s.offset + 1 ≤ macro_block_offset
      → finish_micro_block random s ≡ done t
      → Step s t

pub data Steps (s : Chain) : Chain → Type 0 where
  stays : Steps s s
  goes : {t u : Chain} → Steps s t → Step t u → Steps s u
