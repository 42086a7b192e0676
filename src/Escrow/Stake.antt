-- ===== src/Escrow/Stake.antt =====
-- About `stake` and `unstake`.
use stegos.Prelude.{
  ℕ, ◌+◌, ◌%◌, ◌^◌, ◌≡◌, ◌⊎◌, refl, true, false, none, some, inl, inr, arith, if◌then◌else◌,
  panicked, Returns, Returns-mono, Bool-cases,
}
use stegos.Prelude.Int.{ℤ}
use stegos.Prelude.Order.{nat_ord, pair_ord, eq?, eq?→≡, eq?_refl, ge?}
use stegos.BtreeMap.{lookup, lookup-insert, lookup-remove, contains_key, Agree}
use stegos.Mvcc
use stegos.Mvcc.{current_lsn}
use stegos.Crypto.{Hash, PublicKey}
use stegos.Escrow.{Lsn, AccountKey, EscrowKey, EscrowValue, Escrow, stake, unstake}

-- The entry that a stake makes.
abbrev pub stake_value : AccountKey → ℕ → ℤ → EscrowValue
stake_value account_pkey active_until_epoch amount = record {
  account_pkey = account_pkey;
  active_until_epoch = active_until_epoch;
  amount = amount;
}

-- `t` has the entries of `s`, and one more.
abbrev pub IsStaked : EscrowKey → EscrowValue → Escrow → Escrow → Type 0
IsStaked key value s t =
    (q : EscrowKey) → lookup q t.map ≡ (if eq? q key then some value else lookup q s.map)

-- The stake is taken back: the entries of `s` are left in `u`, and it is not there a second time.
abbrev pub IsTakenBack : Lsn → PublicKey → Hash → Escrow → Escrow → Type 0
IsTakenBack again v hash s u = Agree u.map s.map × (unstake again v hash u ≡ panicked)

present_panics :
    (lsn : Lsn) (v : PublicKey) (account : AccountKey) (hash : Hash) (epoch stakes_epoch : ℕ)
    (amount : ℤ) (s : Escrow)
    → ge? lsn (current_lsn s) ≡ true
    → contains_key (v, hash) s.map ≡ true
    → stake lsn v account hash epoch stakes_epoch amount s ≡ panicked
unfolding stake Mvcc.insert
present_panics lsn v account hash epoch stakes_epoch amount s h old = rw (h, old) refl

absent_stakes :
    (lsn : Lsn) (v : PublicKey) (account : AccountKey) (hash : Hash) (epoch stakes_epoch : ℕ)
    (amount : ℤ) (s : Escrow)
    → ge? lsn (current_lsn s) ≡ true
    → contains_key (v, hash) s.map ≡ false
    → Returns (stake lsn v account hash epoch stakes_epoch amount s) (λ t.
      IsStaked (v, hash) (stake_value account ((epoch + stakes_epoch) % 2 ^ 64) amount) s t
      × (current_lsn t ≡ lsn))
unfolding stake Mvcc.insert
absent_stakes lsn v account hash epoch stakes_epoch amount s h new =
    rw (h, new)
      (
        (λ q.
            lookup-insert (v, hash) q (stake_value account ((epoch + stakes_epoch) % 2 ^ 64) amount)
              s.map),
        refl,
      )

missing_panics :
    (lsn : Lsn) (v : PublicKey) (hash : Hash) (s : Escrow)
    → ge? lsn (current_lsn s) ≡ true
    → lookup (v, hash) s.map ≡ none
    → unstake lsn v hash s ≡ panicked
unfolding unstake Mvcc.remove
missing_panics lsn v hash s h absent = rw (h, absent) refl

unstakes :
    (lsn : Lsn) (v : PublicKey) (hash : Hash) (value : EscrowValue) (s : Escrow)
    → ge? lsn (current_lsn s) ≡ true
    → lookup (v, hash) s.map ≡ some value
    → Returns (unstake lsn v hash s) (λ u.
      ((q : EscrowKey) → lookup q u.map ≡ (if eq? q (v, hash) then none else lookup q s.map))
      × (current_lsn u ≡ lsn))
unfolding unstake Mvcc.remove
unstakes lsn v hash value s h present =
    rw (h, present) ((λ q. lookup-remove (v, hash) q s.map), refl)

-- With sequence numbers that do not fall, one of two things holds. Either the validator has a stake in
-- this output already, and `stake` panics. Or it has none, and `stake` returns: the new entry has the
-- account and the amount, and is active for `stakes_epoch` epochs, as a `u64`; the other entries are the
-- same. `unstake` then returns and leaves the entries that there were before; if it is called for this
-- stake once more, it panics.
pub unstake-stake :
    (lsn later again : Lsn) (v : PublicKey) (account : AccountKey) (hash : Hash)
    (epoch stakes_epoch : ℕ) (amount : ℤ) (s : Escrow)
    → ge? lsn (current_lsn s) ≡ true
    → ge? later lsn ≡ true
    → ge? again later ≡ true
    → ((contains_key (v, hash) s.map ≡ true)
        × (stake lsn v account hash epoch stakes_epoch amount s ≡ panicked))
      ⊎ ((contains_key (v, hash) s.map ≡ false)
          × Returns (stake lsn v account hash epoch stakes_epoch amount s) (λ t.
            IsStaked (v, hash) (stake_value account ((epoch + stakes_epoch) % 2 ^ 64) amount) s t
            × Returns (unstake later v hash t) (IsTakenBack again v hash s)))
unstake-stake lsn later again v account hash epoch stakes_epoch amount s h h' h'' =
    let key : EscrowKey = (v, hash) in
    let value : EscrowValue = stake_value account ((epoch + stakes_epoch) % 2 ^ 64) amount in
    elim (Bool-cases (contains_key key s.map)) [
      | inl old ↦ inl (old, present_panics lsn v account hash epoch stakes_epoch amount s h old)
      | inr new ↦
          let absent : lookup key s.map ≡ none = ground (arith, new) in
          inr (
            new,
            Returns-mono _ _ (stake lsn v account hash epoch stakes_epoch amount s)
                (absent_stakes lsn v account hash epoch stakes_epoch amount s h new)
                (λ t (staked, at_lsn). (
                  staked,
                  Returns-mono _ (IsTakenBack again v hash s) (unstake later v hash t)
                      (unstakes later v hash value t (rw at_lsn h')
                        (ground (arith, staked key, eq?_refl key)))
                      (λ u (removed, at_later). (
                        (λ q. ground (arith, removed q, staked q, absent, eq?→≡ q key)),
                        missing_panics again v hash u (rw at_later h'')
                            (ground (arith, removed key, eq?_refl key)),
                      )),
                )),
          )
    ]
