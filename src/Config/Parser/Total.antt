-- ===== src/Config/Parser/Total.antt =====
-- What a parser of `_tokens` keeps: it stays in front of the token `END`, and goes on by as many
-- tokens as it says.
use webserv_team.Base.{
  ℕ, suc, ◌+◌, ◌≤◌, ◌≡◌, ◌≢◌, ◌⊎◌, inl, inr, Bool, true, false, List, [], ◌∷◌, arith, if◌then◌else◌,
  ==_iff, Bytes, length,
}
use webserv_team.Config.Outcome.{Outcome, returns, runtime_error, ◌>>>◌}
use webserv_team.Config.Tokens.{TokenType, number_of, end_token, Token, is_kind}
use webserv_team.Config.Parser.{Reader, ◌>>=◌, pure, throw, peek, consume, consume_all}

-- The last token is `END`, and no other is.
pub data Ends : List Token → Type 0 where
  stops : (t : Token) → is_kind end_token t ≡ true → Ends (t ∷ [])
  goes_on : (t : Token) (ts : List Token) → is_kind end_token t ≡ false → Ends ts → Ends (t ∷ ts)

pub data Post {A : Type 0} (P : A → Type 0) (k n : ℕ) : Outcome (A × List Token) → Type 0 where
  gives :
      (a : A) (rest : List Token)
      → P a
      → Ends rest
      → length rest + k ≤ n
      → Post P k n (returns (a, rest))
  raises : Post P k n runtime_error

abbrev pub Keeps : {A : Type 0} → ℕ → (A → Type 0) → Reader A → Type 0
Keeps k P m = (ts : List Token) → Ends ts → Post P k (length ts) (m ts)

abbrev pub Any : {A : Type 0} → A → Type 0
Any a = Unit {0}

pub Post-weaken :
    {A : Type 0} {P : A → Type 0} {k n j m : ℕ} {o : Outcome (A × List Token)}
    → Post P k n o
    → n + j ≤ m + k
    → Post P j m o
Post-weaken (gives a rest p e h) le = gives a rest p e (omega arith)
Post-weaken raises le = raises

pub Post-bind :
    {A B : Type 0} {Q : A → Type 0} {P : B → Type 0} {k n : ℕ} {o : Outcome (A × List Token)}
    (f : A → Reader B)
    → Post Q k n o
    → ((a : A) (rest : List Token)
        → Q a
        → Ends rest
        → length rest + k ≤ n
        → Post P 0 (length rest) (f a rest))
    → Post P k n (o >>> λ r. f r.0 r.1)
Post-bind f (gives a rest q e h) next = Post-weaken (next a rest q e h) (omega arith)
Post-bind f raises next = raises

pub Keeps-bind :
    {A B : Type 0} {Q : A → Type 0} {P : B → Type 0} {k : ℕ} {m : Reader A} {f : A → Reader B}
    → Keeps k Q m
    → ((a : A) → Q a → Keeps 0 P (f a))
    → Keeps k P (m >>= f)
Keeps-bind {f = f} keeps next = λ ts e. Post-bind f (keeps ts e) (λ a rest q e' h. next a q rest e')

pub Keeps-weaken : {A : Type 0} {P : A → Type 0} {k : ℕ} {m : Reader A} → Keeps k P m → Keeps 0 P m
Keeps-weaken keeps = λ ts e. Post-weaken (keeps ts e) (omega arith)

pub Keeps-pure : {A : Type 0} {P : A → Type 0} (a : A) → P a → Keeps 0 P (pure a)
Keeps-pure a p = λ ts e. gives a ts p e (omega arith)

pub Keeps-throw : {A : Type 0} {P : A → Type 0} {k : ℕ} → Keeps k P throw
Keeps-throw = λ ts e. raises

pub Keeps-if :
    {A : Type 0} {P : A → Type 0} {k : ℕ} {x y : Reader A} (b : Bool)
    → Keeps k P x
    → Keeps k P y
    → Keeps k P (if b then x else y)
Keeps-if true p q = p
Keeps-if false p q = q

pub Post-if :
    {A : Type 0} {P : A → Type 0} {k n : ℕ} (x y : Reader A) (ts : List Token) (b : Bool)
    → Post P k n (x ts)
    → Post P k n (y ts)
    → Post P k n ((if b then x else y) ts)
Post-if x y ts true p q = p
Post-if x y ts false p q = q

pub Keeps-peek : Keeps 0 Any peek
unfolding peek
Keeps-peek [] e = elim e [ ]
Keeps-peek (t ∷ ts) e = gives t (t ∷ ts) tt e (omega arith)

consume-if :
    (k : TokenType) (t : Token) (ts : List Token) (b : Bool)
    → Ends ts ⊎ (b ≡ false)
    → Post Any 1 (suc (length ts)) (if b then returns (t, ts) else runtime_error)
consume-if k t ts true (inl e) = gives t ts tt e (omega arith)
consume-if k t ts true (inr e) = ground arith
consume-if k t ts false e = raises

-- Two kinds that differ are not both the kind of a token.
other_kind :
    (k j : TokenType) (t : Token)
    → number_of k ≢ number_of j
    → is_kind j t ≡ true
    → is_kind k t ≡ false
unfolding is_kind
other_kind k j t differ e =
    ground (arith, ==_iff (number_of k) (number_of t.kind), ==_iff (number_of j) (number_of t.kind))

pub Keeps-consume : (k : TokenType) → number_of k ≢ number_of end_token → Keeps 1 Any (consume k)
unfolding consume
Keeps-consume k differ [] e = elim e [ ]
Keeps-consume k differ (_ ∷ []) (stops t e) =
    consume-if k t [] (is_kind k t) (inr (other_kind k end_token t differ e))
Keeps-consume k differ (_ ∷ _) (goes_on t ts noend e) = consume-if k t ts (is_kind k t) (inl e)

pick-either :
    (P : Outcome (List Bytes × List Token) → Type 0) (x y : Outcome (List Bytes × List Token))
    (b : Bool)
    → P x
    → P y
    → P (if b then x else y)
pick-either P x y true p q = p
pick-either P x y false p q = q

pick-no :
    (P : Outcome (List Bytes × List Token) → Type 0) (x y : Outcome (List Bytes × List Token))
    (b : Bool)
    → b ≡ false
    → P y
    → P (if b then x else y)
pick-no P x y true e q = ground arith
pick-no P x y false e q = q

pub Keeps-consume_all :
    (k : TokenType) → number_of k ≢ number_of end_token → Keeps 0 Any (consume_all k)
unfolding consume_all
Keeps-consume_all k differ [] e = elim e [ ]
Keeps-consume_all k differ (_ ∷ []) (stops t e) =
    pick-no (Post Any 0 1) _ _ (is_kind k t) (other_kind k end_token t differ e)
      (gives [] (t ∷ []) tt (stops t e) (omega arith))
Keeps-consume_all k differ (_ ∷ _) (goes_on t ts noend e) =
    let values : Post Any 0 (length ts) (consume_all k ts >>> λ r. returns (t.value ∷ r.0, r.1)) =
      Post-bind (λ vs. pure (t.value ∷ vs)) (Keeps-consume_all k differ ts e)
        (λ a rest q e' h. gives (t.value ∷ a) rest tt e' (omega arith)) in
    pick-either (Post Any 0 (suc (length ts))) _ _ (is_kind k t) (Post-weaken values (omega arith))
      (gives [] (t ∷ ts) tt (goes_on t ts noend e) (omega arith))
