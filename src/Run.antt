-- ===== src/Run.antt =====
-- What a call comes to: it returns, it throws `std::length_error`, or it has not returned within the
-- fuel that a loop was given.

pub data Run {ℓ} (A : Type ℓ) : Type ℓ where
  returns : A → Run A
  length_error : Run A
  no_fuel : Run A

infixl 5 ◌>>=◌
abbrev pub ◌>>=◌ {ℓ κ} : {A : Type ℓ} {B : Type κ} → Run A → (A → Run B) → Run B
returns a >>= f = f a
length_error >>= f = length_error
no_fuel >>= f = no_fuel
