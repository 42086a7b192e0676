-- ===== src/ViewChange/Collected.antt =====
-- About the messages that a collector holds.
use stegos.Prelude.{
  ℕ, zero, suc, ◌+◌, ◌≤◌, ◌<◌, ◌≡◌, refl, sym, ap, true, ◌==◌, ==→≡, Bool-cases, Option-cases, inl,
  inr, Option, none, some, List, [], ◌∷◌, length, get_elem?, All, arith,
}
use stegos.Prelude.Order.{nat_ord}
use stegos.BtreeMap.{BtreeMap, lookup, insert, lookup-insert}
use stegos.BtreeMap.Sorted.{Above, Sorted, lookup-Above}
use stegos.Crypto.{Hash, PublicKey, Signature, Signing}
use stegos.Multisignature.Aligned.{Given, indexed, given_slots, GivenValid}
use stegos.ViewChange.{ViewChangeMessage, message_signatures}

abbrev pub signature_of : Option ViewChangeMessage → Option Signature
signature_of none = none
signature_of (some message) = some message.signature

-- The signatures that the map has, for each validator in turn, from the index `id` on.
abbrev pub given_from : ℕ → List (PublicKey × ℕ) → BtreeMap ℕ ViewChangeMessage → Given
given_from id [] m = []
given_from id (w ∷ ws) m = signature_of (lookup id m) ∷ given_from (id + 1) ws m

pub length-given_from :
    (id : ℕ) (ws : List (PublicKey × ℕ)) (m : BtreeMap ℕ ViewChangeMessage)
    → length (given_from id ws m) ≡ length ws
length-given_from id [] m = refl
length-given_from id (w ∷ ws) m = ap suc (length-given_from (id + 1) ws m)

-- It depends on the entries from `id` on only.
given_from_congr :
    (id : ℕ) (ws : List (PublicKey × ℕ)) (m n : BtreeMap ℕ ViewChangeMessage)
    → ((q : ℕ) → id ≤ q → lookup q m ≡ lookup q n)
    → given_from id ws m ≡ given_from id ws n
given_from_congr id [] m n same = refl
given_from_congr id (w ∷ ws) m n same =
    rw (same id (omega arith), given_from_congr (id + 1) ws m n λ q h. same q (omega (arith, h)))
      refl

-- Every index of the map is one of a validator, from `id` on.
abbrev pub Within : ℕ → ℕ → BtreeMap ℕ ViewChangeMessage → Type 0
Within id n = All (λ e. (id ≤ e.0) × (e.0 < id + n))

Within-Above :
    (id n k : ℕ) (m : BtreeMap ℕ ViewChangeMessage)
    → id ≤ k
    → Within id (suc n) m
    → Above k m
    → Within (id + 1) n m
Within-Above id n k [] h w a = tt
Within-Above id n k (e ∷ m) h w a =
    ((ground (arith, a.0), omega (arith, w.0)), Within-Above id n k m h w.1 a.1)

Above-less : (id k : ℕ) (m : BtreeMap ℕ ViewChangeMessage) → id < k → Above k m → Above id m
Above-less id k [] h a = tt
Above-less id k (e ∷ m) h a = (ground (arith, a.0), Above-less id k m h a.1)

-- The entries of a sorted map are those of its lookups in turn.
pub message_signatures-indexed :
    (id : ℕ) (ws : List (PublicKey × ℕ)) (m : BtreeMap ℕ ViewChangeMessage)
    → Sorted m
    → Within id (length ws) m
    → message_signatures m ≡ indexed id (given_from id ws m)
unfolding lookup
message_signatures-indexed id [] [] s w = refl
message_signatures-indexed id [] (e ∷ m) s w = absurd (omega (arith, w.0))
message_signatures-indexed id (v ∷ ws) [] s w = message_signatures-indexed (id + 1) ws [] tt tt
message_signatures-indexed id (v ∷ ws) ((k, message) ∷ m) (a, s) w = elim (Bool-cases (id == k)) [
  | inl e ↦
      let same : id ≡ k = ==→≡ id k e in
      let rest : given_from (id + 1) ws ((k, message) ∷ m) ≡ given_from (id + 1) ws m =
        given_from_congr (id + 1) ws ((k, message) ∷ m) m λ q h. ground (arith, same, h) in
      let ih =
        message_signatures-indexed (id + 1) ws m s
          (Within-Above id (length ws) k m (omega (arith, w.0)) w.1 a) in
      rw (e, rest, ih)
        (ap (λ j. (j, message.signature) ∷ indexed (id + 1) (given_from (id + 1) ws m)) (sym same))
  | inr e ↦
      let less : id < k = ground (arith, w.0) in
      let absent : lookup id m ≡ none = lookup-Above id m (Above-less id k m less a) in
      rw (e, absent)
        (message_signatures-indexed (id + 1) ws ((k, message) ∷ m) (a, s)
          (
            (omega (arith, less), omega (arith, w.0)),
            Within-Above id (length ws) k m (omega (arith, less)) w.1 a,
          ))
]

insert-after :
    (id k : ℕ) (ws : List (PublicKey × ℕ)) (m : BtreeMap ℕ ViewChangeMessage)
    (message : ViewChangeMessage)
    → k ≤ id
    → given_from (id + 1) ws (insert k message m) ≡ given_from (id + 1) ws m
insert-after id k ws m message h =
    given_from_congr (id + 1) ws (insert k message m) m
      λ q above. ground (arith, lookup-insert k q message m)

-- A new entry adds the slots of its validator, if it is one.
pub given_slots-insert :
    (id i k : ℕ) (ws : List (PublicKey × ℕ)) (m : BtreeMap ℕ ViewChangeMessage)
    (message : ViewChangeMessage) {pk : PublicKey} {n : ℕ}
    → k ≡ id + i
    → get_elem? ws i ≡ some (pk, n)
    → lookup k m ≡ none
    → given_slots ws (given_from id ws (insert k message m))
      ≡ given_slots ws (given_from id ws m) + n
given_slots-insert id i k [] m message e found absent = absurd (ground arith)
given_slots-insert id zero k ((pj, j) ∷ ws) m message e found absent =
    let here : lookup id (insert k message m) ≡ some message =
      ground (arith, lookup-insert k id message m, e) in
    let before : lookup id m ≡ none = ground (arith, absent, e) in
    rw (here, insert-after id k ws m message (omega (arith, e)), before) (ground (arith, found))
given_slots-insert id (suc i) k (w ∷ ws) m message e found absent =
    let other : lookup id (insert k message m) ≡ lookup id m =
      ground (arith, lookup-insert k id message m, e) in
    let ih = given_slots-insert (id + 1) i k ws m message (omega (arith, e)) found absent in
    elim (Option-cases (lookup id m)) [
      | inl none_here ↦ rw (other, none_here) ih
      | inr (_, one_here) ↦ rw (other, one_here) (omega (arith, ih))
    ]

module _ (c : Signing) where
  pub GivenValid-insert :
      (h : Hash) (id i k : ℕ) (ws : List (PublicKey × ℕ)) (m : BtreeMap ℕ ViewChangeMessage)
      (message : ViewChangeMessage) {pk : PublicKey} {n : ℕ}
      → k ≡ id + i
      → get_elem? ws i ≡ some (pk, n)
      → c.check_hash h message.signature pk ≡ true
      → GivenValid c h ws (given_from id ws m)
      → GivenValid c h ws (given_from id ws (insert k message m))
  GivenValid-insert h id i k [] m message e found valid all = tt
  GivenValid-insert h id zero k ((pj, j) ∷ ws) m message e found valid all =
      let here : lookup id (insert k message m) ≡ some message =
        ground (arith, lookup-insert k id message m, e) in
      let holds : c.check_hash h message.signature pj ≡ true = ground (arith, found, valid) in
      let rest : GivenValid c h ws (given_from (id + 1) ws m) = elim (Option-cases (lookup id m)) [
        | inl none_here ↦ rw none_here at all
        | inr (_, one_here) ↦ (rw one_here at all).1
      ] in
      rw (here, insert-after id k ws m message (omega (arith, e))) (holds, rest)
  GivenValid-insert h id (suc i) k (w ∷ ws) m message e found valid all =
      let other : lookup id (insert k message m) ≡ lookup id m =
        ground (arith, lookup-insert k id message m, e) in
      let ih = GivenValid-insert h (id + 1) i k ws m message (omega (arith, e)) found valid in
      elim (Option-cases (lookup id m)) [
        | inl none_here ↦ rw (other, none_here) (ih (rw none_here at all))
        | inr (_, one_here) ↦
            rw (other, one_here) ((rw one_here at all).0, ih (rw one_here at all).1)
      ]
