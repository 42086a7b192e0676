-- ===== src/Mempool/Block/Priority.antt =====
-- About the order of the transactions by priority.
use stegos.Prelude.{◌≡◌, refl, inl, inr, true, false, Bool-cases, List, [], ◌∷◌, All, arith}
use stegos.Prelude.Int.{ℤ, pos, negsuc, leb_ℤ}
use mathlib.Core.List.{Permᴰ}
use mathlib.Core.List.Permᴰ
use stegos.Transaction.{Transaction}
use stegos.Mempool.Block.{sort_key, insert_tx, sort_pool, is_proper}

leb_ℤ_total : (a b : ℤ) → leb_ℤ a b ≡ false → leb_ℤ b a ≡ true
leb_ℤ_total (pos a) (pos b) e = ground arith
leb_ℤ_total (pos a) (negsuc b) e = refl
leb_ℤ_total (negsuc a) (pos b) e = absurd (ground arith)
leb_ℤ_total (negsuc a) (negsuc b) e = ground arith

leb_ℤ_trans : (a b c : ℤ) → leb_ℤ a b ≡ true → leb_ℤ b c ≡ true → leb_ℤ a c ≡ true
leb_ℤ_trans (pos a) (pos b) (pos c) e f = ground arith
leb_ℤ_trans (pos a) (negsuc b) c e f = absurd (ground arith)
leb_ℤ_trans (pos a) (pos b) (negsuc c) e f = absurd (ground arith)
leb_ℤ_trans (negsuc a) b (pos c) e f = refl
leb_ℤ_trans (negsuc a) (pos b) (negsuc c) e f = absurd (ground arith)
leb_ℤ_trans (negsuc a) (negsuc b) (negsuc c) e f = ground arith

-- The transaction goes before each of the list.
abbrev pub GoesBefore : Transaction → List Transaction → Type 0
GoesBefore tx = All (λ t. leb_ℤ (sort_key tx) (sort_key t) ≡ true)

abbrev pub Ordered : List Transaction → Type 0
Ordered [] = Unit
Ordered (tx ∷ txs) = GoesBefore tx txs × Ordered txs

GoesBefore-trans :
    (a b : Transaction) (ts : List Transaction)
    → leb_ℤ (sort_key a) (sort_key b) ≡ true
    → GoesBefore b ts
    → GoesBefore a ts
GoesBefore-trans a b [] e before = tt
GoesBefore-trans a b (t ∷ ts) e before = (
  leb_ℤ_trans (sort_key a) (sort_key b) (sort_key t) e before.0,
  GoesBefore-trans a b ts e before.1,
)

GoesBefore-insert_tx :
    (a tx : Transaction) (ts : List Transaction)
    → leb_ℤ (sort_key a) (sort_key tx) ≡ true
    → GoesBefore a ts
    → GoesBefore a (insert_tx tx ts)
unfolding insert_tx
GoesBefore-insert_tx a tx [] e before = (e, tt)
GoesBefore-insert_tx a tx (t ∷ ts) e before = elim (Bool-cases (leb_ℤ (sort_key tx) (sort_key t))) [
  | inl first ↦ rw first (e, before)
  | inr later ↦ rw later (before.0, GoesBefore-insert_tx a tx ts e before.1)
]

insert_tx-Ordered :
    (tx : Transaction) (ts : List Transaction) → Ordered ts → Ordered (insert_tx tx ts)
unfolding insert_tx
insert_tx-Ordered tx [] o = (tt, tt)
insert_tx-Ordered tx (t ∷ ts) o = elim (Bool-cases (leb_ℤ (sort_key tx) (sort_key t))) [
  | inl first ↦ rw first ((first, GoesBefore-trans tx t ts first o.0), o)
  | inr later ↦ rw later (
    GoesBefore-insert_tx t tx ts (leb_ℤ_total (sort_key tx) (sort_key t) later) o.0,
    insert_tx-Ordered tx ts o.1,
  )
]

insert_tx-perm : (tx : Transaction) (ts : List Transaction) → Permᴰ (insert_tx tx ts) (tx ∷ ts)
unfolding insert_tx
insert_tx-perm tx [] = Permᴰ.refl (tx ∷ [])
insert_tx-perm tx (t ∷ ts) = elim (Bool-cases (leb_ℤ (sort_key tx) (sort_key t))) [
  | inl first ↦ rw first (Permᴰ.refl (tx ∷ t ∷ ts))
  | inr later ↦
      rw later (Permᴰ.trans (Permᴰ.cons refl (insert_tx-perm tx ts)) (Permᴰ.swap refl refl))
]

pub sort_pool-Ordered : (txs : List Transaction) → Ordered (sort_pool txs)
unfolding sort_pool
sort_pool-Ordered [] = tt
sort_pool-Ordered (tx ∷ txs) = insert_tx-Ordered tx (sort_pool txs) (sort_pool-Ordered txs)

pub sort_pool-perm : (txs : List Transaction) → Permᴰ (sort_pool txs) txs
unfolding sort_pool
sort_pool-perm [] = Permᴰ.nil
sort_pool-perm (tx ∷ txs) =
    Permᴰ.trans (insert_tx-perm tx (sort_pool txs)) (Permᴰ.cons refl (sort_pool-perm txs))

abbrev pub AllProper : List Transaction → Type 0
AllProper = All (λ tx. is_proper tx ≡ true)

insert_tx-AllProper :
    (tx : Transaction) (ts : List Transaction)
    → is_proper tx ≡ true
    → AllProper ts
    → AllProper (insert_tx tx ts)
unfolding insert_tx
insert_tx-AllProper tx [] e all = (e, tt)
insert_tx-AllProper tx (t ∷ ts) e all = elim (Bool-cases (leb_ℤ (sort_key tx) (sort_key t))) [
  | inl first ↦ rw first (e, all)
  | inr later ↦ rw later (all.0, insert_tx-AllProper tx ts e all.1)
]

pub sort_pool-AllProper : (txs : List Transaction) → AllProper txs → AllProper (sort_pool txs)
unfolding sort_pool
sort_pool-AllProper [] all = tt
sort_pool-AllProper (tx ∷ txs) all =
    insert_tx-AllProper tx (sort_pool txs) all.0 (sort_pool-AllProper txs all.1)
