-- ===== src/Election/Winner.antt =====
-- About the winner of a draw, and the leader.
use stegos.Prelude.{
  ℕ, zero, suc, ◌+◌, ◌-◌, ◌%◌, ◌^◌, ◌≤◌, ◌<◌, ◌≡◌, refl, ap, true, false, ltb, leb, ◌==◌, List, [],
  ◌∷◌, map, arith, Option, some, Returns, Returns-bind, Returns-mono, get_elem?, Bool-cases, inl,
  inr,
}
use stegos.Prelude.Int.{ℤ, pos, +i64_pos}
use native.Mathlib.Nat.{add-zero, sub-zero}
use stegos.Crypto.{Hash, PublicKey}
use stegos.Election.{
  ElectionResult, abs_or_zero, sum_stakes, winner_loop, select_winner, select_leader,
}

-- Stakes that are not negative, as numbers.
abbrev pub stakes : List ℕ → List ℤ
stakes = map pos

abbrev pub total : List ℕ → ℕ
total [] = 0
total (x ∷ xs) = x + total xs

pub sum_stakes-total : (xs : List ℕ) → total xs < 2 ^ 63 → sum_stakes (stakes xs) ≡ pos (total xs)
unfolding sum_stakes
sum_stakes-total [] h = refl
sum_stakes-total (x ∷ xs) h = ground (arith, sum_stakes-total xs, +i64_pos x (total xs))

-- `i` is the place in `xs` at which the running sum passes `n`.
abbrev pub Holds : ℕ → ℕ → List ℕ → Type 0
Holds n i [] = ⊥
Holds n zero (x ∷ xs) = n < x
Holds n (suc i) (x ∷ xs) = (x ≤ n) × Holds (n - x) i xs

abbrev Wins : ℕ → ℕ → List ℕ → Option ℕ → Type 0
Wins n num xs w = (i : ℕ) × (w ≡ some (num + i)) × Holds n i xs

leb_zero : (x : ℕ) → leb 0 x ≡ true
leb_zero x = ground arith

winner_loop-Wins :
    (need acc num : ℕ) (xs : List ℕ)
    → acc ≤ need
    → need < acc + total xs
    → acc + total xs < 2 ^ 63
    → Returns (winner_loop need (pos acc) num (stakes xs)) (Wins (need - acc) num xs)
unfolding winner_loop
winner_loop-Wins need acc num [] low high fits = absurd (omega arith)
winner_loop-Wins need acc num (x ∷ xs) low high fits =
    rw (+i64_pos acc x (omega arith), leb_zero x)
      (elim (Bool-cases (ltb need (acc + x))) [
        | inl here ↦ rw here (0, ground arith, ground arith)
        | inr next ↦ rw next (
            Returns-mono (Wins (need - (acc + x)) (num + 1) xs) _
              (winner_loop need (pos (acc + x)) (num + 1) (stakes xs))
              (winner_loop-Wins need (acc + x) (num + 1) xs (ground arith) (omega arith)
                (omega arith))
              (λ w (i, e, h). (suc i, ground arith, ground arith)))
      ])

-- With stakes that are not negative and a positive sum that an `i64` holds, the draw returns a
-- winner, with no panic: the place in the list at which the running sum of the stakes passes the
-- remainder of the absolute value of the random number by the sum.
pub select_winner_lem :
    (xs : List ℕ) (random : ℤ)
    → 0 < total xs
    → total xs < 2 ^ 63
    → Returns
        (select_winner (stakes xs) random)
        (λ w. (i : ℕ) × (w ≡ some i) × Holds (abs_or_zero random % total xs) i xs)
unfolding select_winner
select_winner_lem xs random some_stake fits =
    let n = abs_or_zero random in
    let e : (total xs == 0) ≡ false = ground arith in
    rw (sum_stakes-total xs fits, e)
      (Returns-mono (Wins (n % total xs) 0 xs) _
        (winner_loop (n % (total xs + 0)) (pos 0) 0 (stakes xs))
        (rw add-zero (
          simp sub-zero at
            (winner_loop-Wins (n % total xs) 0 0 xs (omega arith) (ground arith) (omega arith))))
        (λ w (i, e, h). (i, ground arith, h)))

-- The validators of an election with their slots, which are never negative.
abbrev pub slots : List (PublicKey × ℕ) → List (PublicKey × ℤ)
slots = map (λ v. (v.0, pos v.1))

abbrev pub slot_counts : List (PublicKey × ℕ) → List ℕ
slot_counts = map (λ v. v.1)

pub stakes-slots : (vs : List (PublicKey × ℕ)) → map (λ v. v.1) (slots vs) ≡ stakes (slot_counts vs)
stakes-slots [] = refl
stakes-slots (v ∷ vs) = ap (◌∷◌ (pos v.1)) (stakes-slots vs)

pub Holds-get_elem? :
    (n i : ℕ) (vs : List (PublicKey × ℕ))
    → Holds n i (slot_counts vs)
    → (p : PublicKey) × (k : ℕ) × (get_elem? vs i ≡ some (p, k))
      × (get_elem? (slots vs) i ≡ some (p, pos k))
      × (0 < k)
Holds-get_elem? n i [] h = absurd h
Holds-get_elem? n zero ((p, k) ∷ vs) h = (p, k, refl, refl, omega arith)
Holds-get_elem? n (suc i) ((p, k) ∷ vs) h = Holds-get_elem? (n - k) i vs h.1

-- With slots that are not negative and whose positive sum an `i64` holds, the choice of a leader
-- returns, with no panic, and the leader is a validator with at least one slot.
pub select_leader_lem :
    (mix : Hash → ℕ → Hash) (e : ElectionResult) (view_change : ℕ) (vs : List (PublicKey × ℕ))
    → e.validators ≡ slots vs
    → 0 < total (slot_counts vs)
    → total (slot_counts vs) < 2 ^ 63
    → Returns
        (select_leader mix e view_change)
        (λ p. (i : ℕ) × (k : ℕ) × (get_elem? vs i ≡ some (p, k)) × (0 < k))
unfolding select_leader
select_leader_lem mix e view_change vs same some_slot fits =
    rw (same, stakes-slots vs)
      (Returns-bind _ _ (select_winner (stakes (slot_counts vs)) _) _
        (select_winner_lem (slot_counts vs) _ some_slot fits)
        (λ w (i, won, h).
          let (p, k, here, there, pos_k) = Holds-get_elem? _ i vs h in
          rw (won, there) (i, k, here, pos_k)))
