-- ===== src/Client/Outcome.antt =====
-- What holds of the outcomes of a handler.
use mathlib.Core.Path.{subst}
use webserv_team.Base.{◌≡◌, refl, ◌⊎◌, inl, inr}
use webserv_team.Run.{Run, returns, length_error, no_fuel}
use webserv_team.Client.{Reaction, reacts, crashes, hangs, ◌>>=◌}

-- What holds of the states that a handler leaves.
abbrev pub Holds {ℓ κ} : {A : Type ℓ} → (A → Type κ) → Reaction A → Type κ
Holds P (reacts a) = P a
Holds P crashes = Unit
Holds P hangs = Unit

pub Run-cases {ℓ} :
    {A : Type ℓ} (r : Run A) → ((a : A) × (r ≡ returns a)) ⊎ ((r ≡ length_error) ⊎ (r ≡ no_fuel))
Run-cases (returns a) = inl (a, refl)
Run-cases length_error = inr (inl refl)
Run-cases no_fuel = inr (inr refl)

pub Reaction-cases {ℓ} :
    {A : Type ℓ} (r : Reaction A) → ((a : A) × (r ≡ reacts a)) ⊎ ((r ≡ crashes) ⊎ (r ≡ hangs))
Reaction-cases (reacts a) = inl (a, refl)
Reaction-cases crashes = inr (inl refl)
Reaction-cases hangs = inr (inr refl)

-- What holds of the first handler's states and, from them, of the second's, holds of both in a row.
pub Holds-bind {ℓ κ μ ν} :
    {A : Type ℓ} {B : Type κ} (P : A → Type μ) (Q : B → Type ν) (r : Reaction A)
    (f : A → Reaction B)
    → Holds P r
    → ((a : A) → P a → Holds Q (f a))
    → Holds Q (r >>= f)
Holds-bind P Q (reacts a) f h go = go a h
Holds-bind P Q crashes f h go = tt
Holds-bind P Q hangs f h go = tt

pub Holds-map {ℓ κ μ} :
    {A : Type ℓ} (P : A → Type κ) (Q : A → Type μ) (r : Reaction A)
    → Holds P r
    → ((a : A) → P a → Q a)
    → Holds Q r
Holds-map P Q (reacts a) h go = go a h
Holds-map P Q crashes h go = tt
Holds-map P Q hangs h go = tt

pub Holds-reacts {ℓ κ} :
    {A : Type ℓ} (P : A → Type κ) (r : Reaction A) (a : A) → Holds P r → r ≡ reacts a → P a
Holds-reacts P r a h e = subst (Holds P) e h
