-- ===== src/Config/Tokens/Apart.antt =====
-- What `sanitize_input` does to the delimiters.
use webserv_team.Base.{
  ℕ, ◌≡◌, refl, inl, inr, Bool, true, false, not, ◌&&◌, ◌||◌, [], ◌∷◌, arith, ◌==◌, Bool-cases,
  Bytes, has_byte,
}
use webserv_team.Libc.{is_digit, to_lower}
use webserv_team.Config.Tokens.{is_delimiter, is_size_multiplier, sanitize_input}

starts_blank : Bytes → Bool
starts_blank [] = false
starts_blank (c ∷ s) = c == b' '

-- Every delimiter of the text stands between two blanks; the first argument is the byte in front.
unfoldable pub are_apart : ℕ → Bytes → Bool
unfolding starts_blank
are_apart before [] = true
are_apart before (c ∷ s) =
    (not (is_delimiter c) || (before == b' ' && starts_blank s)) && are_apart c s

unit_no_delimiter : (c : ℕ) → is_size_multiplier c ≡ true → is_delimiter (to_lower c) ≡ false
unfolding is_size_multiplier has_byte to_lower
unit_no_delimiter c h = ground arith

blank_no_delimiter : is_delimiter b' ' ≡ false
unfolding has_byte
blank_no_delimiter = refl

-- Whatever the configuration file holds, each of `;`, `{` and `}` stands between two blanks in the
-- text that is split into words.
pub sanitize_input-apart :
    (after_digit : Bool) (before : ℕ) (s : Bytes)
    → are_apart before (sanitize_input after_digit s) ≡ true
unfolding are_apart sanitize_input
sanitize_input-apart after_digit before [] = refl
sanitize_input-apart after_digit before (c ∷ s) =
    let blank = blank_no_delimiter in
    let spaced = sanitize_input-apart false b' ' s in
    let joined = sanitize_input-apart (is_digit c) c s in
    elim (Bool-cases (is_delimiter c)) [
      | inl d ↦ ground (arith, blank, spaced)
      | inr n ↦ elim (Bool-cases (is_size_multiplier c && after_digit)) [
        | inl u ↦
            let unit : is_size_multiplier c ≡ true = ground arith in
            let plain = unit_no_delimiter c unit in ground (arith, blank, spaced, plain)
        | inr o ↦ ground (arith, joined)
      ]
    ]
