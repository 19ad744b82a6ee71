-- ===== src/Utils/Pieces.antt =====
-- What holds of the pieces of a text holds of those of a prefix, but for the last.
use webserv_team.Base.{ℕ, inl, inr, List, [], ◌∷◌, ◌++◌, ◌==◌, Bool-cases, Bytes, All}
use webserv_team.Utils.{longer, split}

-- `P` of the first piece and `Q` of the others, the last piece left out.
abbrev pub ButLast : (Bytes → Type 0) → (Bytes → Type 0) → List Bytes → Type 0
ButLast P Q [] = Unit
ButLast P Q (w ∷ []) = Unit
ButLast P Q (w ∷ (v ∷ ws)) = P w × ButLast Q Q (v ∷ ws)

abbrev pub HeadAll : (Bytes → Type 0) → (Bytes → Type 0) → List Bytes → Type 0
HeadAll P Q [] = Unit
HeadAll P Q (w ∷ ws) = P w × All Q ws

pub HeadAll-All : (P : Bytes → Type 0) (ws : List Bytes) → All P ws → HeadAll P P ws
HeadAll-All P [] h = tt
HeadAll-All P (w ∷ ws) h = h

HeadAll-longer :
    (P Q : Bytes → Type 0) (c : ℕ) (ws : List Bytes)
    → HeadAll P Q (longer c ws)
    → HeadAll (λ w. P (c ∷ w)) Q ws
unfolding longer
HeadAll-longer P Q c [] h = tt
HeadAll-longer P Q c (w ∷ ws) h = h

ButLast-longer :
    (P Q : Bytes → Type 0) (c : ℕ) (ws : List Bytes)
    → ButLast (λ w. P (c ∷ w)) Q ws
    → ButLast P Q (longer c ws)
unfolding longer
ButLast-longer P Q c [] h = tt
ButLast-longer P Q c (w ∷ []) h = h
ButLast-longer P Q c (w ∷ (v ∷ ws)) h = h

ButLast-cons :
    (P Q : Bytes → Type 0) (w : Bytes) (ws : List Bytes)
    → P w
    → ButLast Q Q ws
    → ButLast P Q (w ∷ ws)
ButLast-cons P Q w [] p h = tt
ButLast-cons P Q w (v ∷ ws) p h = (p, h)

-- The pieces of a prefix, but for the last, are pieces of the whole.
pub split-prefix :
    (P Q : Bytes → Type 0) (d : ℕ) (a b : Bytes)
    → HeadAll P Q (split d (a ++ b))
    → ButLast P Q (split d a)
unfolding split
split-prefix P Q d [] b h = tt
split-prefix P Q d (c ∷ a) b h = elim (Bool-cases (c == d)) [
  | inl e ↦ rw e (
      let (p, q) = rw e at h in
      ButLast-cons P Q [] (split d a) p
        (split-prefix Q Q d a b (HeadAll-All Q (split d (a ++ b)) q)))
  | inr e ↦ rw e (
      ButLast-longer P Q c (split d a) (
        split-prefix (λ w. P (c ∷ w)) Q d a b
          (HeadAll-longer P Q c (split d (a ++ b)) (rw e at h))))
]
