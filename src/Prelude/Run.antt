-- ===== src/Prelude/Run.antt =====
-- The outcome of a C call: a result, or a fault after which the program has no defined behaviour.
use mathlib.Core.Bool.{Bool, true, false}

-- An `assert` that fails, an access outside the object, a call through a null pointer, output to a
-- null stream.
pub data Fault : Type 0 where
  assert_failed out_of_bounds null_call null_stream : Fault

pub data Run {ℓ} (A : Type ℓ) : Type ℓ where
  done : A → Run A
  fault : Fault → Run A

infixl 5 ◌>>=◌ ◌>>◌
abbrev pub ◌>>=◌ {ℓ κ} : {A : Type ℓ} {B : Type κ} → Run A → (A → Run B) → Run B
done a >>= f = f a
fault e >>= f = fault e

abbrev pub ◌>>◌ {ℓ} : {B : Type ℓ} → Run (Unit {0}) → Run B → Run B
m >> k = m >>= λ _. k

-- `assert` and every other check whose failure ends the program.
abbrev pub check : Bool → Fault → Run (Unit {0})
check true e = done tt
check false e = fault e

-- If it returns, then with P.
abbrev pub Returns {ℓ} : {A : Type ℓ} → (A → Type 0) → Run A → Type 0
Returns P (done a) = P a
Returns P (fault f) = Unit {0}

pub >>=-Returns {ℓ κ} :
    {A : Type ℓ} {B : Type κ} (Q : A → Type 0) (P : B → Type 0) (m : Run A) (f : A → Run B)
    → Returns Q m
    → ((a : A) → Q a → Returns P (f a))
    → Returns P (m >>= f)
>>=-Returns Q P (done a) f q h = h a q
>>=-Returns Q P (fault e) f q h = tt

pub Returns-any {ℓ} : {A : Type ℓ} (m : Run A) → Returns (λ _. Unit {0}) m
Returns-any (done a) = tt
Returns-any (fault e) = tt
