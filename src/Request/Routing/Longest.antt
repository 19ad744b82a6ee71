-- ===== src/Request/Routing/Longest.antt =====
-- The location of a request is the one with the longest path that is a prefix of the target.
use webserv_team.Base.{
  ℕ, ◌≤◌, ◌<◌, ◌≡◌, refl, ap, ◌⊎◌, inl, inr, true, false, ◌&&◌, Option, none, some, List, [], ◌∷◌,
  arith, ltb, Bool-cases, Bytes, length, All, ◌=ᵇ◌, =ᵇ_iff, starts_with,
}
use webserv_team.Config.{Location}
use webserv_team.Request.Routing.{path_of, find_location}

-- The location's path is a prefix of the target.
abbrev pub Covers : Bytes → Location → Type 0
Covers uri l = starts_with (path_of l) uri ≡ true

abbrev pub Among : Location → List Location → Type 0
Among l [] = ⊥
Among l (m ∷ ms) = (m ≡ l) ⊎ Among l ms

starts_with-length : (p s : Bytes) → starts_with p s ≡ true → length p ≤ length s
unfolding starts_with
starts_with-length [] s h = omega arith
starts_with-length (x ∷ p) [] h = cc
starts_with-length (x ∷ p) (y ∷ s) h = omega (arith, starts_with-length p s (ground arith))

starts_with_self : (s : Bytes) → starts_with s s ≡ true
unfolding starts_with
starts_with_self [] = refl
starts_with_self (x ∷ s) = ground (arith, starts_with_self s)

-- No location that covers the target has a path longer than `n`.
abbrev NoneLonger : Bytes → ℕ → List Location → Type 0
NoneLonger uri n = All (λ l. Covers uri l → length (path_of l) ≤ n)

abbrev Found : Bytes → ℕ → Option Location → List Location → Option Location → Type 0
Found uri n best ls none = (best ≡ none) × NoneLonger uri n ls
Found uri n best ls (some l) =
    ((best ≡ some l) ⊎ Among l ls)
    × Covers uri l
    × (n ≤ length (path_of l))
    × NoneLonger uri (length (path_of l)) ls

-- The best match so far.
abbrev Best : Bytes → ℕ → Option Location → Type 0
Best uri n none = n ≡ 0
Best uri n (some b) = Covers uri b × (n ≡ length (path_of b))

NoneLonger-whole : (uri : Bytes) (n : ℕ) (ls : List Location) → length uri ≤ n → NoneLonger uri n ls
NoneLonger-whole uri n [] h = tt
NoneLonger-whole uri n (l ∷ ls) h =
    (λ c. omega (arith, starts_with-length (path_of l) uri c), NoneLonger-whole uri n ls h)

Best-le : (uri : Bytes) (n : ℕ) (best : Option Location) → Best uri n best → n ≤ length uri
Best-le uri n none e = omega arith
Best-le uri n (some b) (c, e) = omega (arith, starts_with-length (path_of b) uri c)

Found-exact :
    (uri : Bytes) (best : Option Location) (n : ℕ) (l : Location) (ls : List Location)
    → Best uri n best
    → uri ≡ path_of l
    → Found uri n best (l ∷ ls) (some l)
Found-exact uri best n l ls b e =
    let same = ap length e in
    (
      inr (inl refl),
      rw (← e) (starts_with_self uri),
      omega (arith, Best-le uri n best b),
      (λ c. omega arith, NoneLonger-whole uri (length (path_of l)) ls (omega arith)),
    )

Found-better :
    (uri : Bytes) (best : Option Location) (n : ℕ) (l : Location) (ls : List Location)
    (r : Option Location)
    → n < length (path_of l)
    → Found uri (length (path_of l)) (some l) ls r
    → Found uri n best (l ∷ ls) r
Found-better uri best n l ls none lt (e, h) = absurd (cc)
Found-better uri best n l ls (some m) lt (inl e, c, le, h) =
    let same : l ≡ m = ground arith in (inr (inl same), c, omega arith, ((λ k. omega arith), h))
Found-better uri best n l ls (some m) lt (inr a, c, le, h) =
    (inr (inr a), c, omega arith, ((λ k. omega arith), h))

Found-same :
    (uri : Bytes) (best : Option Location) (n : ℕ) (l : Location) (ls : List Location)
    (r : Option Location)
    → (Covers uri l → length (path_of l) ≤ n)
    → Found uri n best ls r
    → Found uri n best (l ∷ ls) r
Found-same uri best n l ls none short (e, h) = (e, (short, h))
Found-same uri best n l ls (some m) short (inl e, c, le, h) =
    (inl e, c, le, ((λ k. omega (arith, short k)), h))
Found-same uri best n l ls (some m) short (inr a, c, le, h) =
    (inr (inr a), c, le, ((λ k. omega (arith, short k)), h))

find_location-Found :
    (uri : Bytes) (best : Option Location) (n : ℕ) (ls : List Location)
    → Best uri n best
    → Found uri n best ls (find_location uri best n ls)
unfolding find_location
find_location-Found uri none n [] b = (refl, tt)
find_location-Found uri (some l) n [] (c, e) = (inl refl, c, omega arith, tt)
find_location-Found uri best n (l ∷ ls) b = elim (Bool-cases (uri =ᵇ path_of l)) [
  | inl e ↦ rw e (Found-exact uri best n l ls b ((=ᵇ_iff uri (path_of l)).0 e))
  | inr differs ↦ elim (Bool-cases (starts_with (path_of l) uri && ltb n (length (path_of l)))) [
    | inl e ↦
        rw (differs, e)
          (Found-better uri best n l ls (find_location uri (some l) (length (path_of l)) ls)
            (ground arith)
            (find_location-Found uri (some l) (length (path_of l)) ls ((ground arith), refl)))
    | inr e ↦
        rw (differs, e)
          (Found-same uri best n l ls (find_location uri best n ls) (λ c. ground arith)
            (find_location-Found uri best n ls b))
  ]
]

-- No location has a path that covers the target and is longer than `n`.
abbrev pub NoneBetter : Bytes → ℕ → List Location → Type 0
NoneBetter uri n = All (λ l. (starts_with (path_of l) uri ≡ false) ⊎ (length (path_of l) ≤ n))

NoneLonger-NoneBetter :
    (uri : Bytes) (n : ℕ) (ls : List Location) → NoneLonger uri n ls → NoneBetter uri n ls
NoneLonger-NoneBetter uri n [] h = tt
NoneLonger-NoneBetter uri n (l ∷ ls) (le, h) =
    let rest = NoneLonger-NoneBetter uri n ls h in
    elim (Bool-cases (starts_with (path_of l) uri)) [
      | inl covers ↦ (inr (le covers), rest)
      | inr other ↦ (inl other, rest)
    ]

-- What is chosen: a location of the list that covers the target, and no other that does has a longer
-- path; or nothing, and then no location with a path covers the target.
abbrev pub IsLongest : Bytes → List Location → Option Location → Type 0
IsLongest uri ls none = NoneBetter uri 0 ls
IsLongest uri ls (some l) = Among l ls × Covers uri l × NoneBetter uri (length (path_of l)) ls

Found-IsLongest :
    (uri : Bytes) (ls : List Location) (r : Option Location)
    → Found uri 0 none ls r
    → IsLongest uri ls r
Found-IsLongest uri ls none (e, h) = NoneLonger-NoneBetter uri 0 ls h
Found-IsLongest uri ls (some l) (inl e, c, le, h) = absurd (cc)
Found-IsLongest uri ls (some l) (inr a, c, le, h) =
    (a, c, NoneLonger-NoneBetter uri (length (path_of l)) ls h)

-- The location that the loop chooses covers the target, and no location of the list that covers it
-- has a longer path; where it chooses none, no location with a path that is not empty covers the
-- target.
pub find_location-IsLongest :
    (uri : Bytes) (ls : List Location) → IsLongest uri ls (find_location uri none 0 ls)
find_location-IsLongest uri ls =
    Found-IsLongest uri ls (find_location uri none 0 ls) (find_location-Found uri none 0 ls refl)
