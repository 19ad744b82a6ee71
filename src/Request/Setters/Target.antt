-- ===== src/Request/Setters/Target.antt =====
-- What an accepted request target is, and the one that is let through by mistake.
use mathlib.Core.List.{append-nil}
use webserv_team.Base.{
  ◌≤◌, ◌≡◌, refl, inl, inr, true, none, some, [], ◌∷◌, ◌++◌, arith, Option-cases, Bytes, length,
  All, cut, cut-append, starts_in,
}
use webserv_team.Utils.{split}
use webserv_team.Utils.Pieces.{ButLast, HeadAll-All, split-prefix}
use webserv_team.Request.{RequestParser}
use webserv_team.Request.Uri.{normalize_uri}
use webserv_team.Request.Uri.Segments.{NotDots, normalize_uri-NotDots}
use webserv_team.Request.Setters.{
  before_fragment, set_path, set_normalized, set_request_uri, max_uri_length, set_query_string,
}

-- What an accepted target is: it starts at the root, is not too long, and no segment but the last is
-- "." or "..".
pub record IsTarget (path : Bytes) : Type 0 where
  pub rooted : starts_in b'/' path ≡ true
  pub short : length path ≤ max_uri_length
  pub inside : ButLast NotDots NotDots (split b'/' path)

set_path_accepted :
    (s : RequestParser) (path : Bytes)
    → (set_path s path).1 ≡ true
    → (starts_in b'/' path ≡ true)
      × (length path ≤ max_uri_length)
      × ((set_path s path).0.request_uri ≡ path)
unfolding set_path
set_path_accepted s path e = ground arith

set_path-IsTarget :
    (s : RequestParser) (path : Bytes)
    → ButLast NotDots NotDots (split b'/' path)
    → (set_path s path).1 ≡ true
    → IsTarget (set_path s path).0.request_uri
set_path-IsTarget s path h e =
    let (root, fits, same) = set_path_accepted s path e in
    rw same (record { rooted = root; short = fits; inside = h })

set_normalized-IsTarget :
    (s : RequestParser) (uri : Bytes)
    → All NotDots (split b'/' uri)
    → (set_normalized s uri).1 ≡ true
    → IsTarget (set_normalized s uri).0.request_uri
set_normalized-IsTarget s [] h e = absurd (unfold set_normalized in cc)
set_normalized-IsTarget s (c ∷ uri) h e = elim (Option-cases (cut b'?' (c ∷ uri))) [
  | inl whole ↦
      let same = plain whole in
      rw same (set_path-IsTarget s (c ∷ uri) (pieces (c ∷ uri) [] (rw append-nil h)) (rw same at e))
  | inr ((path, query), found) ↦
      let same = queried path query found in
      rw same (
        set_path-IsTarget (set_query_string s query) path
          (pieces path (b'?' ∷ query) (rw (cut-append b'?' (c ∷ uri) path query found) at h))
          (rw same at e))
]
  where
    pieces :
        (path rest : Bytes)
        → All NotDots (split b'/' (path ++ rest))
        → ButLast NotDots NotDots (split b'/' path)
    pieces path rest k = split-prefix NotDots NotDots b'/' path rest (HeadAll-All NotDots _ k)

    plain : cut b'?' (c ∷ uri) ≡ none → set_normalized s (c ∷ uri) ≡ set_path s (c ∷ uri)
    plain k = unfold set_normalized in ground arith

    queried :
        (path query : Bytes)
        → cut b'?' (c ∷ uri) ≡ some (path, query)
        → set_normalized s (c ∷ uri) ≡ set_path (set_query_string s query) path
    queried path query k = unfold set_normalized in ground arith

set_request_uri_accepted :
    (s : RequestParser) (uri : Bytes)
    → (set_request_uri s uri).1 ≡ true
    → (n : RequestParser × Bytes) × (n ≡ normalize_uri s (before_fragment uri))
      × (set_request_uri s uri ≡ set_normalized n.0 n.1)
unfolding set_request_uri
set_request_uri_accepted s uri e = (normalize_uri s (before_fragment uri), refl, ground arith)

-- Whatever the request target, the path that is accepted starts with a slash, is no longer than the
-- limit, and none of its segments but the last is "." or "..".
pub set_request_uri-IsTarget :
    (s : RequestParser) (uri : Bytes)
    → (set_request_uri s uri).1 ≡ true
    → IsTarget (set_request_uri s uri).0.request_uri
set_request_uri-IsTarget s uri e =
    let (n, from, same) = set_request_uri_accepted s uri e in
    rw same (
      set_normalized-IsTarget n.0 n.1 (rw from (normalize_uri-NotDots s (before_fragment uri)))
        (rw same at e))
