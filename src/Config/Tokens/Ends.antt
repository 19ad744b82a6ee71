-- ===== src/Config/Tokens/Ends.antt =====
-- The tokens of any text end with `END`.
use webserv_team.Base.{
  ℕ, zero, suc, ◌≤◌, ◌<◌, ◌≡◌, refl, inl, inr, Bool, true, false, not, ◌&&◌, Option, none, some,
  List, [], ◌∷◌, arith, ◌==◌, if◌then◌else◌, Bool-cases, Bytes, codes, length, ◌=ᵇ◌,
}
use webserv_team.Libc.{is_space}
use webserv_team.Config.Outcome.{Outcome, returns, runtime_error, ◌>>>◌}
use webserv_team.Config.Tokens.{
  Token, TokenType, number_of, end_token, is_kind, token_of, keyword_or_value, number_or_string,
  token, find_keyword, string_to_size_t, words_loop, tokenize, sanitize_input, read_word, skip_line,
  end_of_tokens, client_max_body_size_mul_token, string_token, number_token, keywords, is_unit,
}
use webserv_team.Config.Parser.Total.{Ends, stops, goes_on}

pub data EndsTokens : Outcome (List Token) → Type 0 where
  ends : (ts : List Token) → Ends ts → EndsTokens (returns ts)
  throws : EndsTokens runtime_error

-- A token that a word can be.
data IsWord : Outcome Token → Type 0 where
  word_of : (t : Token) → is_kind end_token t ≡ false → IsWord (returns t)
  no_word : IsWord runtime_error

IsWord-if : {x y : Outcome Token} (b : Bool) → IsWord x → IsWord y → IsWord (if b then x else y)
IsWord-if true p q = p
IsWord-if false p q = q

NotEnd : TokenType → Type 0
NotEnd k = (number_of end_token == number_of k) ≡ false

none_ends : List (Bytes × TokenType) → Bool
none_ends [] = true
none_ends ((w, k) ∷ ks) = not (number_of end_token == number_of k) && none_ends ks

find_keyword-NotEnd :
    (w : Bytes) (ks : List (Bytes × TokenType))
    → none_ends ks ≡ true
    → (k : TokenType) → find_keyword w ks ≡ some k
    → NotEnd k
unfolding find_keyword NotEnd none_ends
find_keyword-NotEnd w [] all k e = ground arith
find_keyword-NotEnd w ((j, kind) ∷ ks) all k e = elim (Bool-cases (w =ᵇ j)) [
  | inl here ↦ ground arith
  | inr there ↦ find_keyword-NotEnd w ks (ground arith) k (ground arith)
]

number_or_string-IsWord : (w : Bytes) (o : Option (Bool × ℕ)) → IsWord (number_or_string w o)
unfolding number_or_string is_kind number_of
number_or_string-IsWord w none = word_of (token w string_token) refl
number_or_string-IsWord w (some (negative, n)) =
    IsWord-if (negative && not (n == 0)) no_word (word_of (token w number_token) refl)

keyword_or_value-IsWord :
    (w : Bytes) (o : Option TokenType) → find_keyword w keywords ≡ o → IsWord (keyword_or_value w o)
unfolding keyword_or_value is_kind number_of NotEnd none_ends
keyword_or_value-IsWord w none e =
    IsWord-if (is_unit w) (word_of (token w client_max_body_size_mul_token) refl)
      (number_or_string-IsWord w (string_to_size_t w))
keyword_or_value-IsWord w (some kind) e =
    word_of (token w kind) (find_keyword-NotEnd w keywords refl kind e)

token_of-IsWord : (w : Bytes) → IsWord (token_of w)
unfolding token_of
token_of-IsWord w = keyword_or_value-IsWord w (find_keyword w keywords) refl

read_word-length : (s : Bytes) → length (read_word s).1 ≤ length s
unfolding read_word
read_word-length [] = omega arith
read_word-length (c ∷ s) = ground (arith, read_word-length s)

skip_line-length : (s : Bytes) → length (skip_line s) ≤ length s
unfolding skip_line
skip_line-length [] = omega arith
skip_line-length (c ∷ s) = ground (arith, skip_line-length s)

-- A word takes a byte where no blank stands in front.
read_word-shorter :
    (c : ℕ) (s : Bytes) → is_space c ≡ false → length (read_word (c ∷ s)).1 ≤ length s
unfolding read_word
read_word-shorter c s e = ground (arith, read_word-length s)

EndsTokens-word :
    {o : Outcome Token} {p : Outcome (List Token)}
    → IsWord o
    → EndsTokens p
    → EndsTokens (o >>> λ t. p >>> λ ts. returns (t ∷ ts))
EndsTokens-word (word_of t e) (ends ts e') = ends (t ∷ ts) (goes_on t ts e e')
EndsTokens-word (word_of t e) throws = throws
EndsTokens-word no_word p = throws

-- The branch taken is all that counts, and the test may be assumed in it.
EndsTokens-if :
    {x y : Outcome (List Token)} (b : Bool)
    → (b ≡ true → EndsTokens x)
    → (b ≡ false → EndsTokens y)
    → EndsTokens (if b then x else y)
EndsTokens-if true p q = p refl
EndsTokens-if false p q = q refl

words_loop-EndsTokens : (fuel : ℕ) (s : Bytes) → length s < fuel → EndsTokens (words_loop fuel s)
unfolding words_loop is_kind number_of
words_loop-EndsTokens zero s h = ground arith
words_loop-EndsTokens (suc fuel) [] h = ends (end_of_tokens ∷ []) (stops end_of_tokens refl)
words_loop-EndsTokens (suc fuel) (c ∷ s) h =
    let (word, rest) = read_word (c ∷ s) in
    EndsTokens-if (is_space c) (λ _. words_loop-EndsTokens fuel s (omega arith))
      (λ e.
        let shorter = read_word-shorter c s e in
        EndsTokens-if (word =ᵇ codes "#")
          (λ _.
            words_loop-EndsTokens fuel (skip_line rest)
              (let less = skip_line-length rest in omega arith))
          (λ _.
            EndsTokens-word (token_of-IsWord word) (words_loop-EndsTokens fuel rest (omega arith))))

-- Every text is either refused with an exception or read as tokens of which the last one, and no
-- other, is `END`.
pub tokenize-EndsTokens : (text : Bytes) → EndsTokens (tokenize text)
unfolding tokenize
tokenize-EndsTokens text =
    let s = sanitize_input false text in words_loop-EndsTokens (suc (length s)) s (omega arith)
