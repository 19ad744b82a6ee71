-- ===== src/Response/Methods.antt =====
-- The handlers of the methods in srcs/ReqRes/ResponseBuilder.cpp. They run at a location: the code
-- reads it through a pointer that is not null there. The path of a request is never empty, so that
-- its last byte is there.
pub mod Deletes
pub mod Gets
use webserv_team.Base.{
  ℕ, zero, suc, ◌+◌, ◌-◌, ◌*◌, ◌/◌, ◌%◌, ◌^◌, ◌≤◌, ◌<◌, min, ◌≡◌, refl, sym, ap, ◌∙◌, ◌≢◌, ◌↔◌, ◌⊎◌,
  inl, inr, Bool, true, false, not, ◌&&◌, ◌||◌, Option, none, some, List, [], ◌∷◌, ◌++◌, map,
  String, arith, ltb, leb, ◌==◌, if◌then◌else◌, ==_iff, Bool-cases, Option-cases, Bytes, codes,
  length, is_empty, take, drop, length-append, length-take, length-drop, take-append-drop,
  take-append, drop-append, take-append_long, drop-append_long, take_all, drop_all, take-min,
  drop-min, All, All-append, ◌=ᵇ◌, =ᵇ_iff, =ᵇ_self, has_byte, cut, cut-append, starts_with, find,
  ends_in, starts_in,
}
use webserv_team.Dict.{value_at}
use webserv_team.Config.{Location}
use webserv_team.Response.{Os, FileStat, ResponseBuilder, set_headers, set_body, set_status}
use webserv_team.Response.Pages.{
  fail_with, error_page, read_file, default_root_page, directory_listing, upload_success_page,
  is_directory_at, is_dots,
}
use webserv_team.Response.Multipart.{contains, handle_multipart_form_data}

-- The content of a file, for the owner who may read it.
unfoldable pub get_file :
    {W : Type 0} → Os W → W → FileStat → Bytes → ResponseBuilder → ResponseBuilder
get_file os w file_stat path r =
    let (text, r') = read_file os w path r in
    if not file_stat.is_readable
    then fail_with os w 403 r
    else set_status 200 (record r' { body = text })

unfoldable pub get_listing : {W : Type 0} → Os W → W → Bytes → ResponseBuilder → ResponseBuilder
get_listing os w path r =
    let (text, r') = directory_listing os w path r in
    if is_empty text then fail_with os w 403 r' else set_status 200 (record r' { body = text })

unfoldable pub get_directory :
    {W : Type 0} → Os W → W → Location → Bytes → ResponseBuilder → ResponseBuilder
get_directory os w l path r =
    let uri = r.request.request_uri in
    let inside : ResponseBuilder = elim (os.stat (path ++ l.index) w) [
      | some index_stat ↦ get_file os w index_stat (path ++ l.index) r
      | none ↦ if l.autoindex then get_listing os w path r else fail_with os w 403 r
    ] in
    if not (ends_in b'/' uri)
    then set_headers (codes "Location") (uri ++ b'/' ∷ []) (fail_with os w 301 r)
    else inside

-- `doGET`, which changes nothing on the machine.
unfoldable pub get : {W : Type 0} → Os W → W → Location → ResponseBuilder → ResponseBuilder
get os w l r =
    let uri = r.request.request_uri in
    let path = l.root ++ uri in
    let found : ResponseBuilder = elim (os.stat path w) [
      | none ↦ fail_with os w 404 r
      | some file_stat ↦
          if file_stat.is_directory
          then get_directory os w l path r
          else get_file os w file_stat path r
    ] in
    if uri =ᵇ codes "/" && is_empty l.root then set_status 200 (default_root_page r) else found

-- A body of any other type goes to a file of its own.
unfoldable pub post_file :
    {W : Type 0} → Os W → W → Location → ResponseBuilder → ResponseBuilder × W
post_file os w l r =
    let filename = codes "upload_" ++ os.timestamp w ++ codes ".bin" in
    let (saved, w') = os.write_file (l.upload_store ++ b'/' ∷ filename) r.request.body w in
    if saved
    then (upload_success_page filename (set_status 201 r), w')
    else (fail_with os w' 403 r, w')

-- `doPOST`.
unfoldable pub post : {W : Type 0} → Os W → W → Location → ResponseBuilder → ResponseBuilder × W
post os w l r =
    let content_type = value_at (codes "content-type") r.request.headers in
    let (given, r', w') =
      handle_multipart_form_data os l.upload_store content_type r.request.body (r, w) in
    if not (is_directory_at os w l.upload_store)
    then (fail_with os w 500 r, w)
    else if contains (codes "multipart/form-data") content_type
    then (if given then (r', w') else (fail_with os w' 403 r', w'))
    else post_file os w l r

-- Whether a listing has no name but `.` and `..`.
unfoldable pub only_dots : List Bytes → Bool
only_dots [] = true
only_dots (name ∷ names) = is_dots name && only_dots names

-- What a removal comes to.
unfoldable pub removed : {W : Type 0} → Os W → ResponseBuilder → Bool × W → ResponseBuilder × W
removed os r (true, w) = (record (set_status 204 r) { body = [] }, w)
removed os r (false, w) = (fail_with os w 500 r, w)

unfoldable pub delete_directory :
    {W : Type 0} → Os W → W → Bytes → ResponseBuilder → ResponseBuilder × W
delete_directory {W = W} os w path r =
    let uri = r.request.request_uri in
    let listed : ResponseBuilder × W = elim (os.list_directory path w) [
      | none ↦ (fail_with os w 403 r, w)
      | some names ↦
          if not (only_dots names)
          then (fail_with os w 409 r, w)
          else if not (os.is_writable path w)
          then (fail_with os w 403 r, w)
          else removed os r (os.remove_directory path w)
    ] in
    if not (ends_in b'/' uri)
    then (
      record (set_headers (codes "Location") (uri ++ b'/' ∷ []) (set_status 301 r)) { body = [] },
      w,
    )
    else listed

-- `doDELETE`.
unfoldable pub delete : {W : Type 0} → Os W → W → Location → ResponseBuilder → ResponseBuilder × W
delete os w l r =
    let path = l.root ++ r.request.request_uri in
    elim (os.stat path w) [
      | none ↦ (fail_with os w 404 r, w)
      | some path_stat ↦
          if path_stat.is_directory
          then delete_directory os w path r
          else removed os r (os.remove_file path w)
    ]
