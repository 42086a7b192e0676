-- ===== src/Consensus/Votes.antt =====
-- Votes weighed by the slots of the voters.
use stegos.Prelude.{
  ℕ, ◌+◌, ◌^◌, ◌≤◌, ◌<◌, ◌≡◌, refl, true, [], ◌∷◌, arith, if◌then◌else◌, All, done, Bool-cases, inl,
  inr,
}
use stegos.Prelude.Int.{pos, +i64_pos}
use stegos.Prelude.Order.{nat_ord, eq?, eq?→≡}
use stegos.BtreeMap
use stegos.BtreeMap.{BtreeMap, lookup, contains_key, lookup-remove}
use stegos.BtreeMap.Sorted.{Sorted, Above, lookup-Above}
use stegos.Crypto.{PublicKey, Signature}
use stegos.Election.Winner.{slots, slot_counts, total}
use stegos.BtreeMap.Entry.{or_zero}
use stegos.Election.Stakers.{lookup-slots}
use stegos.Consensus.Feed.{sum_votes}

abbrev pub Slots : Type 0
Slots = BtreeMap PublicKey ℕ

abbrev pub Votes : Type 0
Votes = BtreeMap PublicKey Signature

-- The slots of the voters, summed.
unfoldable pub tally : Slots → Votes → ℕ
tally ws [] = 0
tally ws ((k, sig) ∷ votes) = or_zero (lookup k ws) + tally ws votes

-- The votes of the first map whose voters have a vote in the second one too.
pub common : Votes → Votes → Votes
common [] b = []
common ((k, sig) ∷ a) b =
    let rest = common a b in if contains_key k b then (k, sig) ∷ rest else rest

abbrev pub AreVoters : Slots → Votes → Type 0
AreVoters ws = All (λ v. contains_key v.0 ws ≡ true)

pub contains_key-slots :
    (k : PublicKey) (ws : Slots) → contains_key k (slots ws) ≡ contains_key k ws
contains_key-slots k ws = ground (arith, lookup-slots k ws)

pub sum_votes-tally :
    (ws : Slots) (acc : ℕ) (votes : Votes)
    → AreVoters ws votes
    → acc + tally ws votes < 2 ^ 63
    → sum_votes (slots ws) (pos acc) votes ≡ done (pos (acc + tally ws votes))
unfolding sum_votes tally
sum_votes-tally ws acc [] voters fits = ground arith
sum_votes-tally ws acc ((k, sig) ∷ votes) voters fits =
    let n = or_zero (lookup k ws) in
    ground (arith, lookup-slots k ws, +i64_pos acc n, sum_votes-tally ws (acc + n) votes voters.1)

total-remove-le :
    (k : PublicKey) (ws : Slots)
    → total (slot_counts (BtreeMap.remove k ws)) + or_zero (lookup k ws) ≤ total (slot_counts ws)
unfolding BtreeMap.remove lookup
total-remove-le k [] = omega arith
total-remove-le k ((j, n) ∷ ws) = ground (arith, total-remove-le k ws)

tally-remove :
    (k : PublicKey) (ws : Slots) (votes : Votes)
    → Sorted votes
    → tally (BtreeMap.remove k ws) votes
        + (if contains_key k votes then or_zero (lookup k ws) else 0)
      ≡ tally ws votes
unfolding tally lookup
tally-remove k ws [] s = refl
tally-remove k ws ((j, sig) ∷ votes) s =
    ground (
      arith,
      tally-remove k ws votes s.1,
      lookup-remove k j ws,
      lookup-Above j votes s.0,
      eq?→≡ k j,
    )

common-Above : (k : PublicKey) (a b : Votes) → Above k a → Above k (common a b)
unfolding common
common-Above k [] b h = tt
common-Above k ((j, sig) ∷ a) b h = ground (arith, common-Above k a b h.1)

common-Sorted : (a b : Votes) → Sorted a → Sorted (common a b)
unfolding common
common-Sorted [] b s = tt
common-Sorted ((j, sig) ∷ a) b s = ground (arith, common-Sorted a b s.1, common-Above j a b s.0)

pub tally-le-total :
    (ws : Slots) (votes : Votes) → Sorted votes → tally ws votes ≤ total (slot_counts ws)
unfolding tally
tally-le-total ws [] s = omega arith
tally-le-total ws ((k, sig) ∷ votes) s = ground (
  arith,
  tally-le-total (BtreeMap.remove k ws) votes s.1,
  tally-remove k ws votes s.1,
  lookup-Above k votes s.0,
  total-remove-le k ws,
)

-- Two sets of votes share at least what they weigh together beyond the total.
pub tally-common :
    (ws : Slots) (a b : Votes)
    → Sorted a
    → Sorted b
    → tally ws a + tally ws b ≤ total (slot_counts ws) + tally ws (common a b)
unfolding tally common
tally-common ws [] b sa sb = omega (arith, tally-le-total ws b sb)
tally-common ws ((k, sig) ∷ a) b sa sb = ground (
  arith,
  tally-common (BtreeMap.remove k ws) a b sa.1 sb,
  tally-remove k ws a sa.1,
  tally-remove k ws b sb,
  tally-remove k ws (common a b) (common-Sorted a b sa.1),
  lookup-Above k a sa.0,
  lookup-Above k (common a b) (common-Above k a b sa.0),
  total-remove-le k ws,
)

-- A set of votes that weighs something has a voter.
pub common-voter :
    (ws : Slots) (a b : Votes)
    → 0 < tally ws (common a b)
    → (k : PublicKey) × (contains_key k a ≡ true) × (contains_key k b ≡ true)
unfolding tally common lookup
common-voter ws [] b h = absurd (omega arith)
common-voter ws ((k, sig) ∷ a) b h = elim (Bool-cases (contains_key k b)) [
  | inl shared ↦ (k, ground arith, shared)
  | inr alone ↦ let (j, in_a, in_b) = common-voter ws a b (ground arith) in (j, ground arith, in_b)
]

-- Another vote never takes weight away.
pub tally-insert :
    (ws : Slots) (k : PublicKey) (sig : Signature) (votes : Votes)
    → tally ws votes ≤ tally ws (BtreeMap.insert k sig votes)
unfolding tally BtreeMap.insert
tally-insert ws k sig [] = omega arith
tally-insert ws k sig ((j, old) ∷ votes) = ground (arith, tally-insert ws k sig votes)

pub insert-AreVoters :
    (ws : Slots) (k : PublicKey) (sig : Signature) (votes : Votes)
    → contains_key k ws ≡ true
    → AreVoters ws votes
    → AreVoters ws (BtreeMap.insert k sig votes)
unfolding BtreeMap.insert
insert-AreVoters ws k sig [] h v = (h, tt)
insert-AreVoters ws k sig ((j, old) ∷ votes) h v =
    ground (arith, insert-AreVoters ws k sig votes h v.1)

pub AreVoters-contains_key :
    (k : PublicKey) (ws : Slots) (votes : Votes)
    → AreVoters ws votes
    → contains_key k votes ≡ true
    → contains_key k ws ≡ true
unfolding lookup
AreVoters-contains_key k ws [] v h = absurd (ground arith)
AreVoters-contains_key k ws ((j, sig) ∷ votes) v h = elim (Bool-cases (eq? k j)) [
  | inl same ↦ rw (eq?→≡ k j same) v.0
  | inr other ↦ AreVoters-contains_key k ws votes v.1 (rw other at h)
]
