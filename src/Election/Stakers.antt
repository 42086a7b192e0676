-- ===== src/Election/Stakers.antt =====
-- Lists of stakers and of slots, which are never negative.
use stegos.Prelude.{
  ℕ, zero, suc, ◌+◌, ◌≡◌, refl, Bool, true, false, none, some, List, [], ◌∷◌, ltb, leb, ◌==◌,
  if◌then◌else◌, Bool-cases, inl, inr, ◌||◌, ◌&&◌, get_elem?, arith,
}
use stegos.Prelude.Int.{pos}
use stegos.Prelude.Order.{nat_ord, eq?→≡}
use stegos.BtreeMap
use stegos.BtreeMap.{BtreeMap, lookup, lookup-insert, contains_key}
use stegos.BtreeMap.Sorted.{Sorted, Above-mono, lookup-Above}
use stegos.BtreeMap.Entry.{or_zero}
use stegos.Crypto.{PublicKey}
use stegos.Election.{insert_staker, sort}
use stegos.Election.Winner.{total, slots, slot_counts}

abbrev pub Counts : Type 0
Counts = List (PublicKey × ℕ)

pub lookup-slots :
    (k : PublicKey) (ws : Counts)
    → lookup k (slots ws) ≡ (elim (lookup k ws) [ none ↦ none | some n ↦ some (pos n) ])
unfolding lookup
lookup-slots k [] = refl
lookup-slots k ((j, n) ∷ ws) = ground (arith, lookup-slots k ws)

pub insert-slots :
    (k : PublicKey) (n : ℕ) (ws : Counts)
    → BtreeMap.insert k (pos n) (slots ws) ≡ slots (BtreeMap.insert k n ws)
unfolding BtreeMap.insert
insert-slots k n [] = refl
insert-slots k n ((j, m) ∷ ws) = ground (arith, insert-slots k n ws)

pub total-insert :
    (k : PublicKey) (n : ℕ) (ws : Counts)
    → Sorted ws
    → total (slot_counts (BtreeMap.insert k n ws)) + or_zero (lookup k ws)
      ≡ total (slot_counts ws) + n
unfolding BtreeMap.insert lookup
total-insert k n [] s = omega arith
total-insert k n ((j, m) ∷ ws) s = ground (
  arith,
  total-insert k n ws s.1,
  Above-mono k j ws,
  lookup-Above k ws,
  lookup-Above j ws s.0,
  eq?→≡ k j,
)

-- Membership of the list of stakers.
pub is_staker : PublicKey → Counts → Bool
is_staker k [] = false
is_staker k ((j, n) ∷ es) = if k == j then true else is_staker k es

pub get_elem?-is_staker :
    (i : ℕ) (k : PublicKey) (n : ℕ) (es : Counts)
    → get_elem? es i ≡ some (k, n)
    → is_staker k es ≡ true
unfolding is_staker
get_elem?-is_staker i k n [] e = absurd (ground arith)
get_elem?-is_staker zero k n ((j, m) ∷ es) e = ground arith
get_elem?-is_staker (suc i) k n ((j, m) ∷ es) e = ground (arith, get_elem?-is_staker i k n es e)

-- Sorting keeps the stakers and the sum of their stakes.
abbrev pub Rearranges : Counts → Counts → Type 0
Rearranges es fs =
    (total (slot_counts fs) ≡ total (slot_counts es))
    × ((k : PublicKey) → is_staker k fs ≡ is_staker k es)

insert_staker-Rearranges :
    (k : PublicKey) (n : ℕ) (es : Counts)
    → (fs : Counts) × (insert_staker (k, pos n) (slots es) ≡ slots fs) × Rearranges ((k, n) ∷ es) fs
unfolding insert_staker is_staker
insert_staker-Rearranges k n [] = ((k, n) ∷ [], refl, (refl, λ q. refl))
insert_staker-Rearranges k n ((j, m) ∷ es) =
    let (fs, e, (sum, same)) = insert_staker-Rearranges k n es in
    elim (Bool-cases (ltb k j || (k == j && leb n m))) [
      | inl first ↦ rw first ((k, n) ∷ (j, m) ∷ es, refl, (refl, λ q. refl))
      | inr later ↦
          rw (later, e) ((j, m) ∷ fs, refl, (ground (arith, sum), λ q. ground (arith, same q)))
    ]

pub sort-Rearranges :
    (es : Counts) → (fs : Counts) × (sort (slots es) ≡ slots fs) × Rearranges es fs
unfolding sort is_staker
sort-Rearranges [] = ([], refl, (refl, λ q. refl))
sort-Rearranges ((k, n) ∷ es) =
    let (fs, e, (sum, same)) = sort-Rearranges es in
    let (gs, e', (sum', same')) = insert_staker-Rearranges k n fs in
    (gs, rw e e', (ground (arith, sum, sum'), λ q. ground (arith, same q, same' q)))
