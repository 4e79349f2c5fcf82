-- ===== src/Base/Outcomes.antt =====
-- What a Rust call comes to: a value, an error that it returns, or a panic.
use mathlib.Core.Path.{◌≡◌, refl}
use mathlib.Core.Logic.{◌⊎◌, inl, inr}
use mathlib.Core.Bool.{Bool, true, false}
use mathlib.Core.Option.{Option, none, some}

pub data Outcome (E : Type 0) (A : Type 0) : Type 0 where
  ok : A → Outcome E A
  err : E → Outcome E A
  panic : Outcome E A

infixl 5 ◌>>=◌ ◌>>◌
abbrev pub ◌>>=◌ : {E A B : Type 0} → Outcome E A → (A → Outcome E B) → Outcome E B
ok a >>= f = f a
err e >>= f = err e
panic >>= f = panic

abbrev pub ◌>>◌ : {E B : Type 0} → Outcome E (Unit {0}) → Outcome E B → Outcome E B
m >> k = m >>= λ _. k

module _ {E : Type 0} where
  -- `if !test { return Err(e) }`
  abbrev pub guard : Bool → E → Outcome E (Unit {0})
  guard true e = ok tt
  guard false e = err e

  -- `assert!`
  abbrev pub assert : Bool → Outcome E (Unit {0})
  assert true = ok tt
  assert false = panic

  module _ {A : Type 0} where
    -- `Option::ok_or`
    abbrev pub ok_or : Option A → E → Outcome E A
    ok_or none e = err e
    ok_or (some a) e = ok a

    -- `Option::unwrap`
    abbrev pub unwrap : Option A → Outcome E A
    unwrap none = panic
    unwrap (some a) = ok a

-- What holds of a value that is returned.
abbrev pub Ensures {ℓ} : {E A : Type 0} → (A → Type ℓ) → Outcome E A → Type ℓ
Ensures P (ok a) = P a
Ensures P (err e) = Unit
Ensures P panic = Unit

-- Inversion of a bind that succeeds.
pub >>=-eq-ok :
    {E X Y : Type 0} (call : Outcome E X) (next : X → Outcome E Y) {y : Y}
    → (call >>= next) ≡ ok y
    → (x : X) × (call ≡ ok x) × (next x ≡ ok y)
>>=-eq-ok panic next returned = cc
>>=-eq-ok (err e) next returned = cc
>>=-eq-ok (ok x) next returned = (x, refl, returned)

-- A value that is returned is one that the call equals.
pub Ensures-intro {ℓ} :
    {E A : Type 0} (P : A → Type ℓ) (m : Outcome E A) → ((a : A) → m ≡ ok a → P a) → Ensures P m
Ensures-intro P (ok a) h = h a refl
Ensures-intro P (err e) h = tt
Ensures-intro P panic h = tt

-- To split on a call and keep the equation.
pub Outcome-cases :
    {E A : Type 0} (m : Outcome E A)
    → ((a : A) × (m ≡ ok a)) ⊎ ((e : E) × (m ≡ err e)) ⊎ (m ≡ panic)
Outcome-cases (ok a) = inl (a, refl)
Outcome-cases (err e) = inr (inl (e, refl))
Outcome-cases panic = inr (inr refl)
