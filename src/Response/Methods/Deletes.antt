-- ===== src/Response/Methods/Deletes.antt =====
-- When DELETE changes the machine.
use webserv_team.Base.{
  ◌≡◌, refl, sym, inl, inr, Bool, true, false, not, some, List, ◌++◌, arith, if◌then◌else◌,
  Bool-cases, Option-cases, Bytes, ends_in,
}
use mathlib.Core.Path.{subst}
use webserv_team.Config.{Location}
use webserv_team.Response.{Os, FileStat, ResponseBuilder}
use webserv_team.Response.Methods.{delete, delete_directory, removed, only_dots}

-- What DELETE of a path does to the machine: nothing; the removal of what is not a directory; or the
-- removal of a directory that lists no name but `.` and `..` and that may be written.
pub data Deletes {W : Type 0} (os : Os W) (w : W) (path : Bytes) : W → Type 0 where
  unchanged : Deletes os w path w
  file_removed :
      (s : FileStat)
      → os.stat path w ≡ some s
      → s.is_directory ≡ false
      → Deletes os w path (os.remove_file path w).1
  directory_removed :
      (s : FileStat) (names : List Bytes)
      → os.stat path w ≡ some s
      → s.is_directory ≡ true
      → os.list_directory path w ≡ some names
      → only_dots names ≡ true
      → os.is_writable path w ≡ true
      → Deletes os w path (os.remove_directory path w).1

removed-world :
    {W : Type 0} (os : Os W) (r : ResponseBuilder) (p : Bool × W) → (removed os r p).1 ≡ p.1
unfolding removed
removed-world os r (true, w) = refl
removed-world os r (false, w) = refl

Deletes-if :
    {W : Type 0} (os : Os W) (w : W) (path : Bytes) (b : Bool) (x y : ResponseBuilder × W)
    → (b ≡ true → Deletes os w path x.1)
    → (b ≡ false → Deletes os w path y.1)
    → Deletes os w path (if b then x else y).1
Deletes-if os w path true x y p q = p refl
Deletes-if os w path false x y p q = q refl

Deletes-along :
    {W : Type 0} (os : Os W) (w : W) (path : Bytes) {u v : W}
    → Deletes os w path u
    → v ≡ u
    → Deletes os w path v
Deletes-along os w path d e = subst (Deletes os w path) (sym e) d

delete_directory-Deletes :
    {W : Type 0} (os : Os W) (w : W) (path : Bytes) (r : ResponseBuilder) (s : FileStat)
    → os.stat path w ≡ some s
    → s.is_directory ≡ true
    → Deletes os w path (delete_directory os w path r).1
unfolding delete_directory
delete_directory-Deletes os w path r s found directory =
    Deletes-if os w path (not (ends_in b'/' r.request.request_uri)) _ _ (λ _. unchanged)
      (λ _. elim (Option-cases (os.list_directory path w)) [
        | inl e ↦ Deletes-along os w path unchanged (ground arith)
        | inr (names, e) ↦ elim (Bool-cases (only_dots names)) [
          | inr entries ↦ Deletes-along os w path unchanged (ground arith)
          | inl dots ↦ elim (Bool-cases (os.is_writable path w)) [
            | inr locked ↦ Deletes-along os w path unchanged (ground arith)
            | inl writable ↦
                Deletes-along os w path (directory_removed s names found directory e dots writable)
                  (ground (arith, removed-world os r (os.remove_directory path w)))
          ]
        ]
      ])

-- DELETE changes the machine only by the removal of what it names, and removes a directory only if
-- it has no entry and may be written.
pub delete-Deletes :
    {W : Type 0} (os : Os W) (w : W) (l : Location) (r : ResponseBuilder)
    → Deletes os w (l.root ++ r.request.request_uri) (delete os w l r).1
unfolding delete
delete-Deletes os w l r =
    let path = l.root ++ r.request.request_uri in
    elim (Option-cases (os.stat path w)) [
      | inl e ↦ Deletes-along os w path unchanged (ground arith)
      | inr (s, e) ↦ elim (Bool-cases s.is_directory) [
        | inl directory ↦
            Deletes-along os w path (delete_directory-Deletes os w path r s e directory)
              (ground arith)
        | inr file ↦
            Deletes-along os w path (file_removed s e file)
              (ground (arith, removed-world os r (os.remove_file path w)))
      ]
    ]
