-- ===== src/Base/Ending.antt =====
-- How a C function ends. Every function of the model returns an `Outcome`, where the source can
-- do anything but return normally.
use mathlib.Core.Path.{◌≡◌, refl}

pub data Outcome {ℓ} (A : Type ℓ) : Type ℓ where
  done : A → Outcome A
  -- undefined behaviour: an access outside an array, or a read of a variable that was never set
  fault : Outcome A
  -- `exit(0)`
  exited : Outcome A
  -- an `assert` that does not hold
  aborted : Outcome A

infixl 5 ◌>>=◌
abbrev pub ◌>>=◌ {ℓ κ} : {A : Type ℓ} {B : Type κ} → Outcome A → (A → Outcome B) → Outcome B
done a >>= f = f a
fault >>= f = fault
exited >>= f = exited
aborted >>= f = aborted

pub >>=-eq-done {ℓ κ} :
    {A : Type ℓ} {B : Type κ} (m : Outcome A) (f : A → Outcome B) {b : B}
    → (m >>= f) ≡ done b
    → (a : A) × (m ≡ done a) × (f a ≡ done b)
>>=-eq-done (done a) f h = (a, refl, h)
>>=-eq-done fault f h = cc
>>=-eq-done exited f h = cc
>>=-eq-done aborted f h = cc
