-- ===== src/Multisignature/Supermajority.antt =====
-- About the test for a supermajority.
use stegos.Prelude.{ℕ, ◌+◌, ◌*◌, ◌^◌, ◌≤◌, ◌<◌, ◌≡◌, ◌↔◌, true, arith, Returns}
use stegos.Prelude.Int.{pos, +i64_pos}
use stegos.Multisignature.{check_supermajority}

-- For votes between 0 and a positive total for which `total * 2 + 3` fits an `i64`, the test
-- returns, with no panic, and is true exactly if the votes are more than two thirds of the total.
pub check_supermajority_lem :
    (got total : ℕ)
    → got ≤ total
    → 0 < total
    → total + total + 3 < 2 ^ 63
    → Returns
        (check_supermajority (pos got) (pos total))
        (λ super. (super ≡ true) ↔ (total * 2 < got * 3))
unfolding check_supermajority
check_supermajority_lem got total h some_votes fits =
    rw (+i64_pos total total (omega arith), +i64_pos (total + total) 3 fits) (ground arith)
