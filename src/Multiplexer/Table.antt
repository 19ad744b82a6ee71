-- ===== src/Multiplexer/Table.antt =====
-- The table of listeners is a finite map from descriptors.
use webserv_team.Base.{
  ℕ, ◌≤◌, ◌<◌, ◌≡◌, refl, inl, inr, none, some, [], ◌∷◌, arith, ltb, ◌==◌, if◌then◌else◌,
  Bool-cases, All,
}
use webserv_team.Multiplexer.{Listener, Listeners, find_listener, insert_listener, erase_listener}

-- Every descriptor of the table is greater than this one.
abbrev pub IsAbove : ℕ → Listeners → Type 0
IsAbove fd ls = All (λ entry. fd < entry.0) ls

abbrev pub IsSorted : Listeners → Type 0
IsSorted [] = Unit
IsSorted ((j, l) ∷ ls) = IsAbove j ls × IsSorted ls

find-IsAbove : (fd j : ℕ) (ls : Listeners) → IsAbove j ls → fd ≤ j → find_listener fd ls ≡ none
unfolding find_listener
find-IsAbove fd j [] h le = refl
find-IsAbove fd j ((i, l) ∷ ls) (lt, h) le = ground (arith, find-IsAbove fd j ls h le)

pub find-insert :
    (fd j : ℕ) (l : Listener) (ls : Listeners)
    → find_listener fd ls ≡ none
    → find_listener j (insert_listener fd l ls) ≡ (if fd == j then some l else find_listener j ls)
unfolding find_listener insert_listener
find-insert fd j l [] h = refl
find-insert fd j l ((i, l') ∷ ls) h = ground (arith, find-insert fd j l ls)

pub find-erase :
    (fd j : ℕ) (ls : Listeners)
    → IsSorted ls
    → find_listener j (erase_listener fd ls) ≡ (if fd == j then none else find_listener j ls)
unfolding find_listener erase_listener
find-erase fd j [] h = ground arith
find-erase fd j ((i, l) ∷ ls) (above, h) =
    ground (arith, find-erase fd j ls h, find-IsAbove j i ls above)

insert-IsAbove :
    (i fd : ℕ) (l : Listener) (ls : Listeners)
    → i < fd
    → IsAbove i ls
    → IsAbove i (insert_listener fd l ls)
unfolding insert_listener
insert-IsAbove i fd l [] lt h = (lt, tt)
insert-IsAbove i fd l ((j, l') ∷ ls) lt (lt', h) = ground (arith, insert-IsAbove i fd l ls lt h)

raise-IsAbove : (i j : ℕ) (ls : Listeners) → i < j → IsAbove j ls → IsAbove i ls
raise-IsAbove i j [] lt h = tt
raise-IsAbove i j ((k, l) ∷ ls) lt (h, hs) = (omega arith, raise-IsAbove i j ls lt hs)

pub insert-IsSorted :
    (fd : ℕ) (l : Listener) (ls : Listeners)
    → find_listener fd ls ≡ none
    → IsSorted ls
    → IsSorted (insert_listener fd l ls)
unfolding insert_listener find_listener
insert-IsSorted fd l [] free h = (tt, tt)
insert-IsSorted fd l ((j, l') ∷ ls) free (above, h) = elim (Bool-cases (ltb fd j)) [
  | inl e ↦ let lt : fd < j = ground arith in ground (arith, raise-IsAbove fd j ls lt above)
  | inr e ↦
      rw e (insert-IsAbove j fd l ls (ground arith) above, insert-IsSorted fd l ls (ground arith) h)
]

erase-IsAbove : (i fd : ℕ) (ls : Listeners) → IsAbove i ls → IsAbove i (erase_listener fd ls)
unfolding erase_listener
erase-IsAbove i fd [] h = h
erase-IsAbove i fd ((j, l) ∷ ls) (lt, h) = elim (Bool-cases (j == fd)) [
  | inl e ↦ rw e h
  | inr e ↦ rw e (lt, erase-IsAbove i fd ls h)
]

pub erase-IsSorted : (fd : ℕ) (ls : Listeners) → IsSorted ls → IsSorted (erase_listener fd ls)
unfolding erase_listener
erase-IsSorted fd [] h = h
erase-IsSorted fd ((j, l) ∷ ls) (above, h) = elim (Bool-cases (j == fd)) [
  | inl e ↦ rw e h
  | inr e ↦ rw e (erase-IsAbove j fd ls above, erase-IsSorted fd ls h)
]
