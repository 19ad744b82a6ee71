-- ===== src/Utils/Laws.antt =====
-- What `split` guarantees of its pieces.
use webserv_team.Base.{
  inl, inr, ℕ, false, List, [], ◌∷◌, ◌++◌, ◌≡◌, refl, arith, ◌==◌, Bytes, has_byte, All, Bool-cases,
}
use webserv_team.Utils.{longer, split}

-- The text holds no byte `d`.
abbrev pub Without : ℕ → Bytes → Type 0
Without d s = has_byte d s ≡ false

longer-Without :
    (d c : ℕ) (ws : List Bytes)
    → (c == d) ≡ false
    → All (Without d) ws
    → All (Without d) (longer c ws)
unfolding longer has_byte
longer-Without d c [] e h = ground arith
longer-Without d c (w ∷ ws) e (p, h) = ground arith

pub split-Without : (d : ℕ) (s : Bytes) → All (Without d) (split d s)
unfolding split has_byte
split-Without d [] = tt
split-Without d (c ∷ s) = elim (Bool-cases (c == d)) [
  | inl e ↦ rw e (refl, split-Without d s)
  | inr e ↦ rw e (longer-Without d c (split d s) e (split-Without d s))
]

-- A piece with its delimiter is read back, whatever follows.
pub split-piece : (d : ℕ) (w s : Bytes) → Without d w → split d (w ++ d ∷ s) ≡ w ∷ split d s
unfolding split has_byte longer
split-piece d [] s h = ground arith
split-piece d (c ∷ w) s h = ground (arith, split-piece d w s)

-- So is a last piece that is not empty.
pub split-last : (d c : ℕ) (w : Bytes) → Without d (c ∷ w) → split d (c ∷ w) ≡ (c ∷ w) ∷ []
unfolding split has_byte longer
split-last d c [] h = ground arith
split-last d c (e ∷ w) h = ground (arith, split-last d e w)
