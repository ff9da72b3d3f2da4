-- ===== src/Prelude/Outcomes.antt =====
-- How a piece of kernel code ends: with a value, at a null pointer or past a buffer, or not within
-- the fuel given.
pub data Outcome {ℓ} (A : Type ℓ) : Type ℓ where
  done : A → Outcome A
  fault : Outcome A
  out_of_fuel : Outcome A

infixl 5 ◌>>=◌
abbrev pub ◌>>=◌ {ℓ κ} : {A : Type ℓ} {B : Type κ} → Outcome A → (A → Outcome B) → Outcome B
done a >>= f = f a
fault >>= f = fault
out_of_fuel >>= f = out_of_fuel
