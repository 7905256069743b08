-- ===== src/Prelude/Outcome.antt =====
-- How a piece of kernel code ends. The kernel is built with `_DEBUG`, so a failed `dassert` and a
-- `dpanic` stop it in an endless loop; `fault` is a use of a null pointer.
use mathlib.Core.Bool.{Bool, true, false}

pub data Outcome {ℓ} (A : Type ℓ) : Type ℓ where
  done : A → Outcome A
  halted : Outcome A
  fault : Outcome A

infixl 5 ◌>>=◌ ◌>>◌
abbrev pub ◌>>=◌ {ℓ κ} : {A : Type ℓ} {B : Type κ} → Outcome A → (A → Outcome B) → Outcome B
done a >>= f = f a
halted >>= f = halted
fault >>= f = fault

abbrev pub ◌>>◌ {ℓ} : {B : Type ℓ} → Outcome (Unit {0}) → Outcome B → Outcome B
m >> k = m >>= λ _. k

abbrev pub dassert : Bool → Outcome (Unit {0})
dassert true = done tt
dassert false = halted
