-- ===== src/Prelude/Fallible.antt =====
-- What a call comes to: a value, a panic (a failed assertion, `unwrap` or `expect`), or a
-- recursion that was given too little fuel.
use mathlib.Core.Bool.{Bool, true, false}
use mathlib.Core.Option.{Option, none, some}
use mathlib.Core.Path.{◌≡◌, refl}
use native.Mathlib.Omega.{arith}
use stegos.Prelude.Tests.{if◌then◌else◌}

pub data Outcome {ℓ} (A : Type ℓ) : Type ℓ where
  done : A → Outcome A
  panicked : Outcome A
  out_of_fuel : Outcome A

pub data Result (E A : Type 0) : Type 0 where
  ok : A → Result E A
  err : E → Result E A

infixl 5 ◌>>=◌ ◌>>◌
abbrev pub ◌>>=◌ {ℓ κ} : {A : Type ℓ} {B : Type κ} → Outcome A → (A → Outcome B) → Outcome B
done a >>= f = f a
panicked >>= f = panicked
out_of_fuel >>= f = out_of_fuel

abbrev pub ◌>>◌ {ℓ} : {B : Type ℓ} → Outcome (Unit {0}) → Outcome B → Outcome B
m >> k = m >>= λ _. k

-- `assert!`
abbrev pub assert : Bool → Outcome (Unit {0})
assert true = done tt
assert false = panicked

-- `unwrap` and `expect`
abbrev pub unwrap {ℓ} : {A : Type ℓ} → Option A → Outcome A
unwrap none = panicked
unwrap (some a) = done a

-- `?` on a result that a call may return.
abbrev pub try_then :
    {E A B : Type 0} → Outcome (Result E A) → (A → Outcome (Result E B)) → Outcome (Result E B)
try_then (done (ok a)) f = f a
try_then (done (err e)) f = done (err e)
try_then panicked f = panicked
try_then out_of_fuel f = out_of_fuel

-- `if rejected { return Err(e) }`
abbrev pub reject_if : {E A : Type 0} → Bool → E → Outcome (Result E A) → Outcome (Result E A)
reject_if true e m = done (err e)
reject_if false e m = m

-- Total correctness: the call returns, and what it returns satisfies `P`.
abbrev pub Returns {ℓ} : {A : Type ℓ} → Outcome A → (A → Type 0) → Type 0
Returns (done a) P = P a
Returns panicked P = ⊥
Returns out_of_fuel P = ⊥

pub Returns-bind {ℓ κ} :
    {A : Type ℓ} {B : Type κ} (P : A → Type 0) (Q : B → Type 0) (m : Outcome A) (f : A → Outcome B)
    → Returns m P
    → ((a : A) → P a → Returns (f a) Q)
    → Returns (m >>= f) Q
Returns-bind P Q (done a) f h k = k a h
Returns-bind P Q panicked f h k = absurd h
Returns-bind P Q out_of_fuel f h k = absurd h

pub Returns-mono {ℓ} :
    {A : Type ℓ} (P Q : A → Type 0) (m : Outcome A)
    → Returns m P
    → ((a : A) → P a → Q a)
    → Returns m Q
Returns-mono P Q (done a) h k = k a h
Returns-mono P Q panicked h k = absurd h
Returns-mono P Q out_of_fuel h k = absurd h

-- The value that a call returns.
pub Returns-done {ℓ} :
    {A : Type ℓ} (P : A → Type 0) (m : Outcome A) → Returns m P → (a : A) × (m ≡ done a) × P a
Returns-done P (done a) h = (a, refl, h)
Returns-done P panicked h = absurd h
Returns-done P out_of_fuel h = absurd h

pub >>=-eq-done {ℓ κ} :
    {A : Type ℓ} {B : Type κ} (m : Outcome A) (f : A → Outcome B) {b : B}
    → (m >>= f) ≡ done b
    → (a : A) × (m ≡ done a) × (f a ≡ done b)
>>=-eq-done (done a) f h = (a, refl, h)
>>=-eq-done panicked f h = cc
>>=-eq-done out_of_fuel f h = cc

-- What was so on the way to a result.
pub try_then-ok :
    {E A B : Type 0} (m : Outcome (Result E A)) (f : A → Outcome (Result E B)) {b : B}
    → try_then m f ≡ done (ok b)
    → (a : A) × (m ≡ done (ok a)) × (f a ≡ done (ok b))
try_then-ok (done (ok a)) f h = (a, refl, h)
try_then-ok (done (err e)) f h = absurd (ground arith)
try_then-ok panicked f h = absurd (ground arith)
try_then-ok out_of_fuel f h = absurd (ground arith)

pub reject_if-ok :
    {E A : Type 0} (b : Bool) (e : E) (m : Outcome (Result E A)) {a : A}
    → reject_if b e m ≡ done (ok a)
    → (b ≡ false) × (m ≡ done (ok a))
reject_if-ok true e m h = absurd (ground arith)
reject_if-ok false e m h = (refl, h)

pub assert-done {ℓ} :
    {A : Type ℓ} (b : Bool) (m : Outcome A) {a : A}
    → (assert b >> m) ≡ done a
    → (b ≡ true) × (m ≡ done a)
assert-done true m h = (refl, h)
assert-done false m h = absurd (ground arith)

-- Rules that lead a proof of `Returns` through a `do` block.
module _ {ℓ κ} {A : Type ℓ} {B : Type κ} (Q : B → Type 0) where
  pub Returns-step :
      (m : Outcome A) (f : A → Outcome B) {a : A}
      → m ≡ done a
      → Returns (f a) Q
      → Returns (m >>= f) Q
  Returns-step m f e h = rw e h

  pub Returns-unwrap :
      (o : Option A) (f : A → Outcome B) {a : A}
      → o ≡ some a
      → Returns (f a) Q
      → Returns (unwrap o >>= f) Q
  Returns-unwrap o f e h = rw e h

module _ {κ} {B : Type κ} (Q : B → Type 0) where
  pub Returns-assert :
      (b : Bool) (m : Outcome B) → b ≡ true → Returns m Q → Returns (assert b >> m) Q
  Returns-assert b m e h = rw e h

  pub Returns-if :
      (b : Bool) (m n : Outcome B)
      → (b ≡ true → Returns m Q)
      → (b ≡ false → Returns n Q)
      → Returns (if b then m else n) Q
  Returns-if true m n h k = h refl
  Returns-if false m n h k = k refl
