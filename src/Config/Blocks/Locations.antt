-- ===== src/Config/Blocks/Locations.antt =====
-- What every directive makes of a location.
use webserv_team.Base.{
  ℕ, zero, suc, ◌≤◌, ◌≡◌, refl, ◌≢◌, ◌⊎◌, inl, true, List, [], ◌∷◌, arith, ◌==◌, codes, length,
  ◌=ᵇ◌,
}
use webserv_team.Config.{Location}
use webserv_team.Config.Tokens.{
  TokenType, root_token, error_page_token, rbrace_token, semicolon_token, number_token,
  string_token, end_token, autoindex_token, index_token, allowed_methods_token, redirect_token,
  return_token, cgi_token, cgi_path_token, upload_store_token, Token, is_kind, number_of,
}
use webserv_team.Config.Parser.{Reader, ◌>>=◌, peek, consume}
use webserv_team.Config.Parser.Total.{
  Ends, Post, gives, Keeps, Post-weaken, Post-bind, Keeps-bind, Keeps-weaken, Keeps-pure,
  Keeps-throw, Keeps-if, Post-if, Keeps-peek, Keeps-consume, Keeps-consume_all,
}
use webserv_team.Config.Blocks.{
  redirect_code_directive, parse_redirect_directive, parse_upload_store_directive, cgi_paths_loop,
  cgi_switch, parse_cgi_directive, parse_return_directive, parse_root, skip_error_page,
  parse_autoindex, parse_index, parse_allowed_methods, location_directive, location_loop,
}

-- A location has a message only with `return`, an address only with `redirect`, and its redirection
-- is permanent for the code 301 alone.
unfoldable pub IsSane : Location → Type 0
IsSane l =
    ((l.has_return ≡ true) ⊎ (l.return_message ≡ []))
    × ((l.is_redirect ≡ true) ⊎ (l.redirect_url ≡ []))
    × (l.is_redirect_permanent ≡ (l.redirect_code == 301))

pub Keeps-after :
    {A : Type 0} {P : A → Type 0} {f : Token → Reader A} (k : TokenType)
    → number_of k ≢ number_of end_token
    → ((t : Token) → Keeps 0 P (f t))
    → Keeps 1 P (consume k >>= f)
Keeps-after k differ next = Keeps-bind (Keeps-consume k differ) (λ t _. next t)

pub Keeps-next :
    {A : Type 0} {P : A → Type 0} {f : Token → Reader A} (k : TokenType)
    → number_of k ≢ number_of end_token
    → ((t : Token) → Keeps 0 P (f t))
    → Keeps 0 P (consume k >>= f)
Keeps-next k differ next = Keeps-weaken (Keeps-after k differ next)

Keeps-parse_root : (l : Location) → IsSane l → Keeps 1 IsSane (parse_root l)
unfolding parse_root number_of IsSane
Keeps-parse_root l sane = Keeps-after root_token (omega arith) (λ _.
    Keeps-next string_token (omega arith)
      (λ path. Keeps-next semicolon_token (omega arith) (λ _. Keeps-pure _ sane)))

Keeps-skip_error_page : (l : Location) → IsSane l → Keeps 1 IsSane (skip_error_page l)
unfolding skip_error_page number_of
Keeps-skip_error_page l sane = Keeps-after error_page_token (omega arith) (λ _.
    Keeps-next number_token (omega arith) (λ _.
      Keeps-next string_token (omega arith)
        (λ _. Keeps-next semicolon_token (omega arith) (λ _. Keeps-pure _ sane))))

Keeps-parse_autoindex : (l : Location) → IsSane l → Keeps 1 IsSane (parse_autoindex l)
unfolding parse_autoindex number_of IsSane
Keeps-parse_autoindex l sane = Keeps-after autoindex_token (omega arith) (λ _.
    Keeps-next string_token (omega arith)
      (λ _. Keeps-next semicolon_token (omega arith) (λ _. Keeps-pure _ sane)))

Keeps-parse_index : (l : Location) → IsSane l → Keeps 1 IsSane (parse_index l)
unfolding parse_index number_of IsSane
Keeps-parse_index l sane = Keeps-after index_token (omega arith) (λ _.
    Keeps-next string_token (omega arith)
      (λ _. Keeps-next semicolon_token (omega arith) (λ _. Keeps-pure _ sane)))

Keeps-parse_upload_store :
    (l : Location) → IsSane l → Keeps 1 IsSane (parse_upload_store_directive l)
unfolding parse_upload_store_directive number_of IsSane
Keeps-parse_upload_store l sane = Keeps-after upload_store_token (omega arith) (λ _.
    Keeps-next string_token (omega arith)
      (λ _. Keeps-next semicolon_token (omega arith) (λ _. Keeps-pure _ sane)))

Keeps-parse_allowed_methods : (l : Location) → IsSane l → Keeps 1 IsSane (parse_allowed_methods l)
unfolding parse_allowed_methods number_of IsSane
Keeps-parse_allowed_methods l sane = Keeps-after allowed_methods_token (omega arith) (λ _.
    Keeps-bind (Keeps-consume_all string_token (omega arith))
      (λ _ _. Keeps-next semicolon_token (omega arith) (λ _. Keeps-pure _ sane)))

Keeps-parse_return : (l : Location) → IsSane l → Keeps 1 IsSane (parse_return_directive l)
unfolding parse_return_directive number_of IsSane
Keeps-parse_return l (_, address, code) = Keeps-after return_token (omega arith) (λ _.
    Keeps-next number_token (omega arith) (λ _.
      Keeps-bind (Keeps-consume_all string_token (omega arith)) (λ _ _.
        Keeps-next semicolon_token (omega arith) (λ _. Keeps-pure _ (inl refl, address, code)))))

Keeps-redirect_code : (l : Location) → IsSane l → Keeps 0 IsSane (redirect_code_directive l)
unfolding redirect_code_directive number_of IsSane
Keeps-redirect_code l (message, address, code) = Keeps-bind Keeps-peek (λ t _.
    Keeps-if (is_kind number_token t)
      (Keeps-next number_token (omega arith) (λ _. Keeps-pure _ (message, address, refl)))
      (Keeps-pure _ (message, address, refl)))

Keeps-parse_redirect : (l : Location) → IsSane l → Keeps 1 IsSane (parse_redirect_directive l)
unfolding parse_redirect_directive number_of IsSane
Keeps-parse_redirect l sane = Keeps-after redirect_token (omega arith) (λ _.
    Keeps-bind (Keeps-redirect_code l sane) (λ l' (message, _, code).
      Keeps-next string_token (omega arith) (λ _.
        Keeps-next semicolon_token (omega arith) (λ _. Keeps-pure _ (message, inl refl, code)))))

Keeps-cgi_switch : (l : Location) → IsSane l → Keeps 0 IsSane (cgi_switch l)
unfolding cgi_switch number_of IsSane
Keeps-cgi_switch l sane = Keeps-next string_token (omega arith) (λ value.
    Keeps-if (value.value =ᵇ codes "on") (Keeps-pure _ sane)
      (Keeps-if (value.value =ᵇ codes "off") (Keeps-pure _ sane) Keeps-throw))

-- A loop whose rounds read a token each ends within as much fuel as there are tokens.
Post-cgi_paths :
    (fuel : ℕ) (l : Location)
    → IsSane l
    → (ts : List Token) → Ends ts
    → length ts ≤ fuel
    → Post IsSane 0 (length ts) (cgi_paths_loop fuel l ts)
unfolding cgi_paths_loop number_of peek IsSane
Post-cgi_paths fuel l sane [] e h = elim e [ ]
Post-cgi_paths zero l sane (t ∷ ts) e h = ground arith
Post-cgi_paths (suc fuel) l sane (t ∷ ts) e h =
    let again : Post IsSane 1 (suc (length ts)) _ =
      Post-bind
        (λ _. consume string_token >>= λ path.
          consume semicolon_token >>= λ _. cgi_paths_loop fuel (record l { cgi_path = path.value }))
        (Keeps-consume cgi_path_token (omega arith) (t ∷ ts) e)
        (λ _ rest _ e' h'.
          Post-bind
            (λ path. consume semicolon_token >>= λ _.
              cgi_paths_loop fuel (record l { cgi_path = path.value }))
            (Post-weaken (Keeps-consume string_token (omega arith) rest e') (omega arith))
            (λ path rest _ e'' h''.
              Post-bind (λ _. cgi_paths_loop fuel (record l { cgi_path = path.value }))
                (Post-weaken (Keeps-consume semicolon_token (omega arith) rest e'') (omega arith))
                (λ _ rest _ e''' h'''.
                  Post-cgi_paths fuel (record l { cgi_path = path.value }) sane rest e'''
                    (omega arith)))) in
    Post-if _ _ (t ∷ ts) (is_kind cgi_path_token t) (Post-weaken again (omega arith))
      (gives l (t ∷ ts) sane e (omega arith))

Keeps-parse_cgi : (l : Location) → IsSane l → Keeps 1 IsSane (parse_cgi_directive l)
unfolding parse_cgi_directive number_of
Keeps-parse_cgi l sane = Keeps-after cgi_token (omega arith) (λ _.
    Keeps-bind (Keeps-cgi_switch l sane) (λ l' sane'.
      Keeps-next semicolon_token (omega arith)
        (λ _ ts e. Post-cgi_paths (length ts) l' sane' ts e (omega arith))))

Keeps-location_directive :
    (k : TokenType) (l : Location) → IsSane l → Keeps 1 IsSane (location_directive k l)
unfolding location_directive
Keeps-location_directive root_token l sane = Keeps-parse_root l sane
Keeps-location_directive error_page_token l sane = Keeps-skip_error_page l sane
Keeps-location_directive autoindex_token l sane = Keeps-parse_autoindex l sane
Keeps-location_directive index_token l sane = Keeps-parse_index l sane
Keeps-location_directive allowed_methods_token l sane = Keeps-parse_allowed_methods l sane
Keeps-location_directive redirect_token l sane = Keeps-parse_redirect l sane
Keeps-location_directive cgi_token l sane = Keeps-parse_cgi l sane
Keeps-location_directive upload_store_token l sane = Keeps-parse_upload_store l sane
Keeps-location_directive return_token l sane = Keeps-parse_return l sane
Keeps-location_directive other l sane = Keeps-throw

pub Post-location_loop :
    (fuel : ℕ) (l : Location)
    → IsSane l
    → (ts : List Token) → Ends ts
    → length ts ≤ fuel
    → Post IsSane 0 (length ts) (location_loop fuel l ts)
unfolding location_loop peek
Post-location_loop fuel l sane [] e h = elim e [ ]
Post-location_loop zero l sane (t ∷ ts) e h = ground arith
Post-location_loop (suc fuel) l sane (t ∷ ts) e h =
    let again : Post IsSane 1 (suc (length ts)) _ =
      Post-bind (λ l'. location_loop fuel l') (Keeps-location_directive t.kind l sane (t ∷ ts) e)
        (λ l' rest sane' e' h'. Post-location_loop fuel l' sane' rest e' (omega arith)) in
    Post-if _ _ (t ∷ ts) (is_kind rbrace_token t) (gives l (t ∷ ts) sane e (omega arith))
      (Post-weaken again (omega arith))
