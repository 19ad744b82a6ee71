-- ===== src/Response/Methods/Gets.antt =====
-- What the status of an answer to GET says of the machine.
use mathlib.Core.Path.{subst}
use webserv_team.Base.{
  ℕ, ◌≡◌, refl, sym, ◌⊎◌, inl, inr, true, false, ◌&&◌, none, some, List, ◌++◌, arith, if◌then◌else◌,
  Bool-cases, Option-cases, Bytes, codes, is_empty, ◌=ᵇ◌, ends_in,
}
use webserv_team.Config.{Location}
use webserv_team.Response.{Os, FileStat, ResponseBuilder, set_status, set_headers}
use webserv_team.Response.Pages.{directory_listing}
use webserv_team.Response.Methods.{get, get_file, get_listing, get_directory}
use webserv_team.Response.Build.Routes.{status-fail_with}

-- The answers to GET of a path below a location's root, with their status. A path that names a
-- directory ends with a slash, or else the client is sent there. No two of them hold of one machine.
pub data Finds {W : Type 0} (os : Os W) (w : W) (l : Location) (uri : Bytes) : ℕ → Type 0 where
  missing : os.stat (l.root ++ uri) w ≡ none → Finds os w l uri 404
  moved :
      (s : FileStat)
      → os.stat (l.root ++ uri) w ≡ some s
      → s.is_directory ≡ true
      → ends_in b'/' uri ≡ false
      → Finds os w l uri 301
  file :
      (s : FileStat) (code : ℕ)
      → os.stat (l.root ++ uri) w ≡ some s
      → s.is_directory ≡ false
      → code ≡ (if s.is_readable then 200 else 403)
      → Finds os w l uri code
  index_file :
      (s t : FileStat) (code : ℕ)
      → os.stat (l.root ++ uri) w ≡ some s
      → s.is_directory ≡ true
      → ends_in b'/' uri ≡ true
      → os.stat (l.root ++ uri ++ l.index) w ≡ some t
      → code ≡ (if t.is_readable then 200 else 403)
      → Finds os w l uri code
  listing :
      (s : FileStat) (names : List Bytes)
      → os.stat (l.root ++ uri) w ≡ some s
      → s.is_directory ≡ true
      → ends_in b'/' uri ≡ true
      → os.stat (l.root ++ uri ++ l.index) w ≡ none
      → l.autoindex ≡ true
      → os.list_directory (l.root ++ uri) w ≡ some names
      → Finds os w l uri 200
  no_listing :
      (s : FileStat)
      → os.stat (l.root ++ uri) w ≡ some s
      → s.is_directory ≡ true
      → ends_in b'/' uri ≡ true
      → os.stat (l.root ++ uri ++ l.index) w ≡ none
      → (l.autoindex ≡ false) ⊎ (os.list_directory (l.root ++ uri) w ≡ none)
      → Finds os w l uri 403

-- The answers to GET: the welcome page for "/" at a location without a root, and only then.
pub data Gets {W : Type 0} (os : Os W) (w : W) (l : Location) (uri : Bytes) : ℕ → Type 0 where
  welcome : (uri =ᵇ codes "/") ≡ true → is_empty l.root ≡ true → Gets os w l uri 200
  below_root :
      (code : ℕ)
      → (uri =ᵇ codes "/" && is_empty l.root) ≡ false
      → Finds os w l uri code
      → Gets os w l uri code

Finds-along :
    {W : Type 0} (os : Os W) (w : W) (l : Location) (uri : Bytes) {n m : ℕ}
    → Finds os w l uri n
    → m ≡ n
    → Finds os w l uri m
Finds-along os w l uri g e = subst (Finds os w l uri) (sym e) g

Gets-along :
    {W : Type 0} (os : Os W) (w : W) (l : Location) (uri : Bytes) {n m : ℕ}
    → Gets os w l uri n
    → m ≡ n
    → Gets os w l uri m
Gets-along os w l uri g e = subst (Gets os w l uri) (sym e) g

status-get_file :
    {W : Type 0} (os : Os W) (w : W) (s : FileStat) (path : Bytes) (r : ResponseBuilder)
    → (get_file os w s path r).status_code ≡ (if s.is_readable then 200 else 403)
unfolding get_file set_status
status-get_file os w s path r = elim (Bool-cases s.is_readable) [
  | inl e ↦ ground arith
  | inr e ↦ ground (arith, status-fail_with os w 403 r)
]

listing_text :
    {W : Type 0} (os : Os W) (w : W) (path : Bytes) (r : ResponseBuilder) (names : List Bytes)
    → os.list_directory path w ≡ some names
    → is_empty (directory_listing os w path r).0 ≡ false
unfolding directory_listing
listing_text os w path r names e = ground arith

no_listing_text :
    {W : Type 0} (os : Os W) (w : W) (path : Bytes) (r : ResponseBuilder)
    → os.list_directory path w ≡ none
    → is_empty (directory_listing os w path r).0 ≡ true
unfolding directory_listing
no_listing_text os w path r e = ground arith

status-get_listing :
    {W : Type 0} (os : Os W) (w : W) (path : Bytes) (r : ResponseBuilder)
    → (get_listing os w path r).status_code
      ≡ (if is_empty (directory_listing os w path r).0 then 403 else 200)
unfolding get_listing set_status
status-get_listing os w path r = elim (Bool-cases (is_empty (directory_listing os w path r).0)) [
  | inl e ↦ ground (arith, status-fail_with os w 403 (directory_listing os w path r).1)
  | inr e ↦ ground arith
]

get_directory-Finds :
    {W : Type 0} (os : Os W) (w : W) (l : Location) (r : ResponseBuilder) (s : FileStat)
    → os.stat (l.root ++ r.request.request_uri) w ≡ some s
    → s.is_directory ≡ true
    → Finds os w l r.request.request_uri
        (get_directory os w l (l.root ++ r.request.request_uri) r).status_code
unfolding get_directory set_headers
get_directory-Finds os w l r s found directory =
    let uri = r.request.request_uri in
    let path = l.root ++ uri in
    elim (Bool-cases (ends_in b'/' uri)) [
      | inr bare ↦
          Finds-along os w l uri (moved s found directory bare)
            (ground (arith, status-fail_with os w 301 r))
      | inl slash ↦ elim (Option-cases (os.stat (path ++ l.index) w)) [
        | inr (t, e) ↦
            Finds-along os w l uri (index_file s t _ found directory slash e refl)
              (ground (arith, status-get_file os w t (path ++ l.index) r))
        | inl e ↦ elim (Bool-cases l.autoindex) [
          | inr off ↦
              Finds-along os w l uri (no_listing s found directory slash e (inl off))
                (ground (arith, status-fail_with os w 403 r))
          | inl on ↦ elim (Option-cases (os.list_directory path w)) [
            | inl e' ↦
                Finds-along os w l uri (no_listing s found directory slash e (inr e'))
                  (ground (arith, status-get_listing os w path r, no_listing_text os w path r e'))
            | inr (names, e') ↦
                Finds-along os w l uri (listing s names found directory slash e on e') (
                  ground (arith, status-get_listing os w path r, listing_text os w path r names e'))
          ]
        ]
      ]
    ]

-- The status of an answer to GET is 200 for "/" at a location without a root (the welcome page), and
-- for every other request: 200 for a file or an index file that may be read, and for the listing of a
-- directory without an index file where listings are on; 301 for a directory named without its slash;
-- 404 for what is not there; and 403 for a file that may not be read and a directory that is not
-- listed.
pub get-Gets :
    {W : Type 0} (os : Os W) (w : W) (l : Location) (r : ResponseBuilder)
    → Gets os w l r.request.request_uri (get os w l r).status_code
unfolding get set_status
get-Gets os w l r =
    let uri = r.request.request_uri in
    let path = l.root ++ uri in
    elim (Bool-cases (uri =ᵇ codes "/" && is_empty l.root)) [
      | inl root ↦ Gets-along os w l uri (welcome (ground arith) (ground arith)) (ground arith)
      | inr other ↦ elim (Option-cases (os.stat path w)) [
        | inl e ↦
            Gets-along os w l uri (below_root 404 other (missing e))
              (ground (arith, status-fail_with os w 404 r))
        | inr (s, e) ↦ elim (Bool-cases s.is_directory) [
          | inl directory ↦
              Gets-along os w l uri
                (below_root _ other (get_directory-Finds os w l r s e directory)) (ground arith)
          | inr plain ↦
              Gets-along os w l uri (below_root _ other (file s _ e plain refl))
                (ground (arith, status-get_file os w s path r))
        ]
      ]
    ]
