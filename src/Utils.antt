-- ===== src/Utils.antt =====
-- srcs/Utils/Utils.cpp: `split`, `trim` and `is_numeric`.
pub mod Laws
pub mod Pieces
use webserv_team.Base.{Bool, true, ◌&&◌, List, [], ◌∷◌, ◌==◌, if◌then◌else◌, ℕ, Bytes, has_byte}
use webserv_team.Libc.{is_digit}

-- Puts a byte in front of the first piece.
pub longer : ℕ → List Bytes → List Bytes
longer c [] = (c ∷ []) ∷ []
longer c (w ∷ ws) = (c ∷ w) ∷ ws

-- `split`: the pieces between the delimiters, without an empty last one. `std::getline` with a
-- delimiter reads the same pieces.
unfoldable pub split : ℕ → Bytes → List Bytes
unfolding longer
split d [] = []
split d (c ∷ s) = let rest = split d s in if c == d then [] ∷ rest else longer c rest

-- From `find_first_not_of` on.
trim_front : Bytes → Bytes → Bytes
trim_front delim [] = []
trim_front delim (c ∷ s) = let rest = trim_front delim s in if has_byte c delim then rest else c ∷ s

-- Keeps a byte in front of a trimmed text, unless nothing follows and it is trimmed too.
keep_byte : Bytes → ℕ → Bytes → Bytes
keep_byte delim c [] = if has_byte c delim then [] else c ∷ []
keep_byte delim c (x ∷ s) = c ∷ (x ∷ s)

-- Up to `find_last_not_of`.
trim_back : Bytes → Bytes → Bytes
unfolding keep_byte
trim_back delim [] = []
trim_back delim (c ∷ s) = keep_byte delim c (trim_back delim s)

unfoldable pub trim : Bytes → Bytes → Bytes
unfolding trim_front trim_back has_byte
trim s delim = trim_back delim (trim_front delim s)

-- True of the empty text too.
unfoldable pub is_numeric : Bytes → Bool
unfolding is_digit
is_numeric [] = true
is_numeric (c ∷ s) = is_digit c && is_numeric s
