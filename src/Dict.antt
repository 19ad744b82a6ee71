-- ===== src/Dict.antt =====
-- `std::map<std::string, V>`: an association list in the order of the keys, which is the order in
-- which the program walks it.
use webserv_team.Base.{
  ◌+◌, ◌≤◌, Bool, true, false, ◌||◌, ◌&&◌, List, [], ◌∷◌, Option, none, some, ◌≡◌, refl, arith, ltb,
  ◌==◌, if◌then◌else◌, Bytes, length, ◌=ᵇ◌, =ᵇ_iff, =ᵇ_self,
}

abbrev pub Dict : Type 0
Dict = List (Bytes × Bytes)

-- `operator<` of two strings.
unfoldable pub less : Bytes → Bytes → Bool
less [] [] = false
less [] (y ∷ ys) = true
less (x ∷ xs) [] = false
less (x ∷ xs) (y ∷ ys) = ltb x y || (x == y && less xs ys)

-- `m.find(k)` and `m.at(k)`.
unfoldable pub lookup : Bytes → Dict → Option Bytes
lookup k [] = none
lookup k ((j, v) ∷ m) = if j =ᵇ k then some v else lookup k m

-- `m[k] = v`.
unfoldable pub insert : Bytes → Bytes → Dict → Dict
unfolding less
insert k v [] = (k, v) ∷ []
insert k v ((j, w) ∷ m) =
    if j =ᵇ k then (k, v) ∷ m else if less k j then (k, v) ∷ (j, w) ∷ m else (j, w) ∷ insert k v m

-- `m.erase(k)`.
unfoldable pub erase : Bytes → Dict → Dict
erase k [] = []
erase k ((j, w) ∷ m) = if j =ᵇ k then m else (j, w) ∷ erase k m

-- `m.count(k)`.
abbrev pub has_key : Bytes → Dict → Bool
has_key k m = elim (lookup k m) [ none ↦ false | some _ ↦ true ]

-- The value of `m[k]`, read only: a missing key reads as the empty text.
abbrev pub value_at : Bytes → Dict → Bytes
value_at k m = elim (lookup k m) [ none ↦ [] | some v ↦ v ]

pub lookup-insert :
    (k j v : Bytes) (m : Dict) → lookup j (insert k v m) ≡ (if k =ᵇ j then some v else lookup j m)
unfolding lookup insert
lookup-insert k j v [] = refl
lookup-insert k j v ((i, w) ∷ m) =
    ground (arith, =ᵇ_iff k j, =ᵇ_iff i k, =ᵇ_iff i j, lookup-insert k j v m)

pub lookup-insert_self : (k v : Bytes) (m : Dict) → lookup k (insert k v m) ≡ some v
lookup-insert_self k v m = simp (lookup-insert, =ᵇ_self)

pub length-insert : (k v : Bytes) (m : Dict) → length (insert k v m) ≤ length m + 1
unfolding insert
length-insert k v [] = omega arith
length-insert k v ((i, w) ∷ m) = ground (arith, length-insert k v m)
