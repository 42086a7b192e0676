-- ===== src/Election/Slots.antt =====
-- About the draw of the validators' slots from the stakers.
use stegos.Prelude.{
  ℕ, zero, suc, ◌+◌, ◌^◌, ◌≤◌, ◌<◌, ◌≡◌, refl, sym, ◌∙◌, true, not, [], ◌∷◌, ltb, is_empty, arith,
  All, Returns, Returns-bind, Returns-mono, Returns-assert,
}
use stegos.Prelude.Int.{ℤ, pos, +i64_pos}
use stegos.Prelude.Order.{nat_ord}
use stegos.BtreeMap
use stegos.BtreeMap.{BtreeMap, lookup, lookup-insert, contains_key}
use stegos.BtreeMap.Sorted.{Sorted, insert-Sorted}
use stegos.BtreeMap.Entry.{or_zero, value_or_zero, add_entry}
use native.Mathlib.Nat.{add-zero}
use stegos.Crypto.{Hash, PublicKey}
use stegos.Election.{ElectionResult, sort, select_winner, draw_slots, select_validators_slots}
use stegos.Election.Winner.{
  stakes, total, slots, slot_counts, stakes-slots, Holds-get_elem?, select_winner_lem,
}
use stegos.Election.Stakers.{
  Counts, insert-slots, total-insert, lookup-slots, is_staker, get_elem?-is_staker, sort-Rearranges,
}

-- The validators drawn so far: slots that are positive, add up to their number, and belong to stakers.
abbrev IsDrawn : Counts → ℕ → BtreeMap PublicKey ℤ → Type 0
IsDrawn es n validators =
    (ws : Counts) × (validators ≡ slots ws)
    × Sorted ws
    × All (λ w. 0 < w.1) ws
    × (total (slot_counts ws) ≡ n)
    × All (λ w. is_staker w.0 es ≡ true) ws

insert-All :
    (Q : PublicKey × ℕ → Type 0) (k : PublicKey) (n : ℕ) (ws : Counts)
    → Q (k, n)
    → All Q ws
    → All Q (BtreeMap.insert k n ws)
unfolding BtreeMap.insert
insert-All Q k n [] h a = (h, tt)
insert-All Q k n ((j, m) ∷ ws) h a = ground (arith, insert-All Q k n ws h a.1)

lookup-le-total : (k : PublicKey) (ws : Counts) → or_zero (lookup k ws) ≤ total (slot_counts ws)
unfolding lookup
lookup-le-total k [] = omega arith
lookup-le-total k ((j, m) ∷ ws) = ground (arith, lookup-le-total k ws)

add_entry-IsDrawn :
    (es : Counts) (k : PublicKey) (n : ℕ) (validators : BtreeMap PublicKey ℤ)
    → is_staker k es ≡ true
    → n + 1 < 2 ^ 63
    → IsDrawn es n validators
    → IsDrawn es (n + 1) (add_entry k (pos 1) validators)
add_entry-IsDrawn es k n validators staker fits (ws, e, sorted, have, sum, all) =
    let m = or_zero (lookup k ws) in
    let count : value_or_zero (lookup k (slots ws)) ≡ pos m = ground (arith, lookup-slots k ws) in
    let grown = total-insert k (m + 1) ws sorted in
    (
      BtreeMap.insert k (m + 1) ws,
      rw (e, count, +i64_pos m 1 (omega (arith, lookup-le-total k ws, sum)))
          (insert-slots k (m + 1) ws),
      insert-Sorted k (m + 1) ws sorted,
      insert-All (λ w. 0 < w.1) k (m + 1) ws (omega arith) have,
      omega (arith, grown, sum),
      insert-All (λ w. is_staker w.0 es ≡ true) k (m + 1) ws staker all,
    )

-- What an election comes to: validators in the order of their keys, each a staker with at least one
-- slot, whose slots add up to the number asked for, and a facilitator that is one of them.
pub record IsElected (es : Counts) (slot_count : ℕ) (result : ElectionResult) : Type 0 where
  pub winners : Counts
  pub are_winners : result.validators ≡ slots winners
  pub sorted : Sorted winners
  pub have_slots : All (λ w. 0 < w.1) winners
  pub all_slots : total (slot_counts winners) ≡ slot_count
  pub are_stakers : All (λ w. is_staker w.0 es ≡ true) winners
  pub facilitator_wins : is_staker result.facilitator winners ≡ true

are_stakers-Rearranges :
    (es fs ws : Counts)
    → ((k : PublicKey) → is_staker k fs ≡ is_staker k es)
    → All (λ w. is_staker w.0 fs ≡ true) ws
    → All (λ w. is_staker w.0 es ≡ true) ws
are_stakers-Rearranges es fs [] same all = tt
are_stakers-Rearranges es fs (w ∷ ws) same all =
    (sym (same w.0) ∙ all.0, are_stakers-Rearranges es fs ws same all.1)

not_empty : (es : Counts) → 0 < total (slot_counts es) → not (is_empty (slots es)) ≡ true
not_empty [] h = absurd (omega arith)
not_empty (e ∷ es) h = refl

module _ (mix : Hash → ℕ → Hash) where
  draw_slots-IsDrawn :
      (es : Counts) (seed : Hash) (count i n : ℕ) (validators : BtreeMap PublicKey ℤ)
      → 0 < total (slot_counts es)
      → total (slot_counts es) < 2 ^ 63
      → n + count < 2 ^ 63
      → IsDrawn es n validators
      → Returns (draw_slots mix (slots es) seed count i validators) (IsDrawn es (n + count))
  unfolding draw_slots
  draw_slots-IsDrawn es seed zero i n validators some_stake fits room d = rw (add-zero n) d
  draw_slots-IsDrawn es seed (suc count) i n validators some_stake fits room d =
      let Q = IsDrawn es (n + suc count) in
      rw (stakes-slots es) (
        Returns-bind _ Q (select_winner (stakes (slot_counts es)) _) _
          (select_winner_lem (slot_counts es) _ some_stake fits)
          (λ w (index, won, h).
            let (k, stake, here, there, _) = Holds-get_elem? _ index es h in
            rw (won, there)
              (Returns-mono (IsDrawn es (n + 1 + count)) Q _
                (draw_slots-IsDrawn es seed count (i + 1) (n + 1) (add_entry k (pos 1) validators)
                  some_stake fits (omega arith)
                  (add_entry-IsDrawn es k n validators (get_elem?-is_staker index k stake es here)
                    (omega arith) d))
                (λ v (ws, e, sorted, have, sum, all).
                  (ws, e, sorted, have, omega (arith, sum), all)))))

  -- For stakes that are not negative and whose positive sum an `i64` holds, and a positive number of
  -- slots, `select_validators_slots` returns, with no panic. Each validator that it returns is a
  -- staker with at least one slot, they stand in the order of their keys, their slots add up to the
  -- number asked for, and the facilitator is one of them.
  pub select_validators_slots-IsElected :
      (mix_facilitator : Hash → Hash) (es : Counts) (random : Hash) (slot_count : ℕ)
      → 0 < total (slot_counts es)
      → total (slot_counts es) < 2 ^ 63
      → 0 < slot_count
      → slot_count < 2 ^ 63
      → Returns
          (select_validators_slots mix mix_facilitator (slots es) random (pos slot_count))
          (IsElected es slot_count)
  unfolding select_validators_slots
  select_validators_slots-IsElected mix_facilitator es random slot_count some_stake fits some_slot
        room =
      let (fs, e, (sum, same)) = sort-Rearranges es in
      let Q = IsElected es slot_count in
      Returns-assert Q (not (is_empty (slots es))) _ (not_empty es some_stake) (
        Returns-assert Q (ltb 0 slot_count) _ (ground arith) (
          Returns-bind (IsDrawn fs (0 + slot_count)) Q
            (draw_slots mix (sort (slots es)) random slot_count 0 []) _
            (rw e (
              draw_slots-IsDrawn fs random slot_count 0 0 [] (omega (arith, sum))
                (omega (arith, sum)) (omega arith) ([], refl, tt, tt, refl, tt)))
            (λ v (ws, drawn, sorted, have, all_slots, all).
              rw (drawn, stakes-slots ws)
                (Returns-bind _ Q (select_winner (stakes (slot_counts ws)) _) _
                  (select_winner_lem (slot_counts ws) _ (omega (arith, all_slots))
                    (omega (arith, all_slots)))
                  (λ w (index, won, h).
                    let (k, n, here, there, _) = Holds-get_elem? _ index ws h in
                    rw (won, there)
                      (record {
                        winners = ws;
                        are_winners = refl;
                        sorted = sorted;
                        have_slots = have;
                        all_slots = omega (arith, all_slots);
                        are_stakers = are_stakers-Rearranges es fs ws same all;
                        facilitator_wins = get_elem?-is_staker index k n ws here;
                      }))))))
