-- ===== src/ElectionHistory/Past.antt =====
-- About the election result of an earlier offset.
use stegos.Prelude.{
  ℕ, ◌+◌, ◌%◌, ◌^◌, ◌≤◌, ◌<◌, ◌≡◌, refl, ◌∙◌, true, false, List, [], ◌∷◌, ◌++◌, ltb, leb, done,
  assert-done, unwrap, >>=-eq-done, All, All-append, arith,
}
use native.Mathlib.Nat.{mod-eq_of_lt}
use stegos.Prelude.Order.{pair_ord, gt?, ge?}
use stegos.BtreeMap.{lookup}
use stegos.Election.{ElectionResult}
use stegos.Escrow.{Lsn}
use stegos.Mvcc
use stegos.Mvcc.{
  MultiVersionedMap, Change, put, change_lsn, apply, run, get, current_lsn, rollback_to_lsn,
}
use stegos.Mvcc.Rollback.{rollback_to_lsn-run}
use stegos.ElectionHistory.{
  unit_ord, Results, Chain, election_result, view_change, insert_result, set_view_change,
  reset_view_change, slash, finish_micro_block, lsn_before, election_result_by_offset, Step,
  sets_view_change, resets_view_change, slashes, finishes_block, Steps, stays, goes,
}

-- The election results of `u` are those of `s` after changes that come after `lsn`; the chain has
-- stayed in the epoch, and has not gone back.
abbrev After : Lsn → Chain → Chain → Type 0
After lsn s u =
    ((cs : List (Change (Unit {0}) ElectionResult Lsn)) × All (λ c. gt? (change_lsn c) lsn ≡ true)
        cs
      × (run cs s.election_result ≡ done u.election_result))
    × (u.epoch ≡ s.epoch)
    × (s.offset ≤ u.offset)

run-append :
    (cs : List (Change (Unit {0}) ElectionResult Lsn)) (c : Change (Unit {0}) ElectionResult Lsn)
    (a : Results) {b d : Results}
    → run cs a ≡ done b
    → apply c b ≡ done d
    → run (cs ++ c ∷ []) a ≡ done d
unfolding run
run-append [] c a e f = ground (arith, e, f)
run-append (c' ∷ cs) c a e f =
    let (m, first, rest) = >>=-eq-done (apply c' a) (run cs) e in
    rw first (run-append cs c m rest f)

-- What `insert_result` does.
insert_result_lem :
    (result : ElectionResult) (s : Chain) {t : Chain}
    → insert_result result s ≡ done t
    → (apply (put (s.epoch, s.offset) tt result) s.election_result ≡ done t.election_result)
      × (t.epoch ≡ s.epoch)
      × (t.offset ≡ s.offset)
unfolding insert_result apply
insert_result_lem result s e =
    let ((results, old), inserted, made) =
      >>=-eq-done (Mvcc.insert (s.epoch, s.offset) tt result s.election_result) _ e in
    (ground (arith, inserted, made), ground (arith, made), ground (arith, made))

-- A step inserts a result under the current sequence number.
abbrev Inserts : Chain → Chain → Type 0
Inserts t u =
    ((result : ElectionResult) × (apply (put (t.epoch, t.offset) tt result) t.election_result
        ≡ done u.election_result))
    × (u.epoch ≡ t.epoch)
    × (t.offset ≤ u.offset)

Step-Inserts : (t u : Chain) → Step t u → Inserts t u
unfolding set_view_change reset_view_change slash finish_micro_block
Step-Inserts t u (sets_view_change view proof e) =
    let (current, _, e) = >>=-eq-done (view_change t) _ e in
    let (_, e) = assert-done (ltb current view) _ e in
    let (result, _, e) = >>=-eq-done (election_result t) _ e in
    let next : ElectionResult = record result { view_change = view } in
    let (v, inserted, made) = >>=-eq-done (insert_result next t) _ e in
    let (applied, epoch, offset) = insert_result_lem next t inserted in
    (
      (next, ground (arith, applied, made)),
      ground (arith, epoch, made),
      ground (arith, offset, made),
    )
Step-Inserts t u (resets_view_change e) =
    let (result, _, e) = >>=-eq-done (election_result t) _ e in
    let next : ElectionResult = record result { view_change = 0 } in
    let (v, inserted, made) = >>=-eq-done (insert_result next t) _ e in
    let (applied, epoch, offset) = insert_result_lem next t inserted in
    (
      (next, ground (arith, applied, made)),
      ground (arith, epoch, made),
      ground (arith, offset, made),
    )
Step-Inserts t u (slashes cheater e) =
    let (result, _, e) = >>=-eq-done (election_result t) _ e in
    let (applied, epoch, offset) = insert_result_lem _ t e in
    ((_, applied), epoch, omega (arith, offset))
Step-Inserts t u (finishes_block random fits e) =
    let (result, _, e) = >>=-eq-done (election_result t) _ e in
    let next : ElectionResult = record result { view_change = 0; random = random } in
    let (v, inserted, made) = >>=-eq-done (insert_result next t) _ e in
    let (applied, epoch, offset) = insert_result_lem next t inserted in
    let narrow : (t.offset + 1) % 2 ^ 32 ≡ t.offset + 1 = mod-eq_of_lt (omega (arith, fits)) in
    (
      (next, ground (arith, applied, made)),
      ground (arith, epoch, made),
      ground (arith, narrow, made),
    )

-- What comes at an offset or after it has a later number than what comes before.
later_lsn :
    (epoch offset e o : ℕ)
    → 0 < epoch
    → e ≡ epoch
    → offset ≤ o
    → gt? (e, o) (lsn_before epoch offset) ≡ true
unfolding lsn_before
later_lsn epoch offset e o positive same h = ground (arith, positive, same, h)

Steps-After : (s u : Chain) → 0 < s.epoch → Steps s u → After (lsn_before s.epoch s.offset) s u
unfolding run
Steps-After s u positive stays = (([], tt, refl), refl, omega arith)
Steps-After s u positive (goes {t} steps step) =
    let ((cs, later, ran), epoch, offset) = Steps-After s t positive steps in
    let ((result, applied), epoch', offset') = Step-Inserts t u step in
    (
      (
        cs ++ put (t.epoch, t.offset) tt result ∷ [],
        All-append (λ c. gt? (change_lsn c) (lsn_before s.epoch s.offset) ≡ true) cs
            (put (t.epoch, t.offset) tt result ∷ []) later
            (later_lsn s.epoch s.offset t.epoch t.offset positive epoch offset, tt),
        run-append cs (put (t.epoch, t.offset) tt result) s.election_result ran applied,
      ),
      epoch' ∙ epoch,
      omega (arith, offset, offset'),
    )

pub epoch-Steps : (s u : Chain) → 0 < s.epoch → Steps s u → u.epoch ≡ s.epoch
epoch-Steps s u positive steps = let (_, epoch, _) = Steps-After s u positive steps in epoch

-- In an epoch after the first, the election result that the chain has, when its last change and its
-- checkpoint come before the current offset, is the one that `election_result_by_offset` returns for
-- this offset, with no panic, after any changes of the view, slashings and blocks that follow in the
-- epoch.
pub election_result_by_offset-Steps :
    (s u : Chain) {result : ElectionResult}
    → 0 < s.epoch
    → election_result s ≡ done result
    → ge? (lsn_before s.epoch s.offset) s.election_result.checkpoint_lsn ≡ true
    → gt? (current_lsn s.election_result) (lsn_before s.epoch s.offset) ≡ false
    → Steps s u
    → election_result_by_offset s.offset u ≡ done result
unfolding election_result_by_offset election_result get
election_result_by_offset-Steps s u {result} positive held old now steps =
    let ((cs, later, ran), epoch, offset) = Steps-After s u positive steps in
    let (m, rolled, agree, undo, checkpoint) =
      rollback_to_lsn-run (lsn_before s.epoch s.offset) cs s.election_result u.election_result old
        now later ran in
    let is_epoch : ltb 0 u.epoch ≡ true = ground (arith, epoch, positive) in
    let is_past : leb s.offset u.offset ≡ true = ground (arith, offset) in
    let now_too : gt? (current_lsn m) (lsn_before s.epoch s.offset) ≡ false =
      rw (undo, checkpoint) now in
    let same : unwrap (lookup tt m.map) ≡ done result = rw (agree tt) held in
    rw (is_epoch, is_past, epoch, rolled, now_too) same
