-- ===== src/Config/Outcome.antt =====
-- What the parser of the configuration comes to: it returns, it throws `std::runtime_error`, it reads
-- behind the end of the vector of tokens, or it has not returned within the fuel of a loop.

pub data Outcome {ℓ} (A : Type ℓ) : Type ℓ where
  returns : A → Outcome A
  runtime_error : Outcome A
  out_of_range : Outcome A
  no_fuel : Outcome A

infixl 5 ◌>>>◌
abbrev pub ◌>>>◌ {ℓ κ} : {A : Type ℓ} {B : Type κ} → Outcome A → (A → Outcome B) → Outcome B
returns a >>> f = f a
runtime_error >>> f = runtime_error
out_of_range >>> f = out_of_range
no_fuel >>> f = no_fuel
