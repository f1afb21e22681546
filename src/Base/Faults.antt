-- ===== src/Base/Faults.antt =====
-- The result of code that may leave defined behaviour. `fault` stands for undefined behaviour of C
-- (an index outside its array, a pointer into a freed block, signed overflow, a remainder by zero,
-- an indeterminate value), for a failed `assert`, for an exit of the process, and for a loop that
-- is still running when its fuel is spent.
use mathlib.Core.Path.{◌≡◌, refl, sym, ap, subst}

pub data Fault : Type 0 where
  out_of_bounds dangling overflow assertion no_fuel : Fault
  indeterminate zero_divisor exited : Fault

-- Either the result or what went wrong first.
pub data Run {ℓ} (Result : Type ℓ) : Type ℓ where
  fault : Fault → Run Result
  ok : Result → Run Result

-- The run ends without a fault, in a result with the property.
abbrev pub Returns {κ ℓ} : {A : Type κ} → Run A → (A → Type ℓ) → Type (κ ⊔ ℓ)
Returns {A} m Q = (x : A) × (m ≡ ok x) × Q x

-- What stands behind a fault is not run.
infixl 5 ◌>>=◌
abbrev pub ◌>>=◌ {κ ℓ} : {A : Type κ} {B : Type ℓ} → Run A → (A → Run B) → Run B
fault x >>= next = fault x
ok result >>= next = next result

abbrev from_ok {ℓ} : {A : Type ℓ} → A → Run A → A
from_ok d (ok a) = a
from_ok d (fault x) = d

pub ok-injective {ℓ} : {A : Type ℓ} {a b : A} → ok a ≡ ok b → a ≡ b
ok-injective {a = a} e = ap (from_ok a) e

pub Returns->>= {ℓ κ ι μ} :
    {A : Type ℓ} {B : Type κ} (P : A → Type ι) (Q : B → Type μ) (m : Run A) (f : A → Run B)
    → Returns m P
    → ((a : A) → P a → Returns (f a) Q)
    → Returns (m >>= f) Q
Returns->>= P Q (ok a) f (b, e, p) k = k a (subst P (sym (ok-injective e)) p)
Returns->>= P Q (fault x) f (b, e, p) k = cc

-- The property holds of the result, if there is no fault.
abbrev pub IfOk {ℓ κ} : {A : Type ℓ} → (A → Type κ) → Run A → Type κ
IfOk P (ok a) = P a
IfOk P (fault x) = Unit

pub IfOk->>= {ℓ κ ι} :
    {A : Type ℓ} {B : Type κ} (P : B → Type ι) (m : Run A) (f : A → Run B)
    → ((a : A) → m ≡ ok a → IfOk P (f a))
    → IfOk P (m >>= f)
IfOk->>= P (ok a) f h = h a refl
IfOk->>= P (fault x) f h = tt
