-- ===== src/Response/Pages.antt =====
-- The pages and the headers that srcs/ReqRes/ResponseBuilder.cpp writes. The last dot of a path is
-- looked for in all of it.
pub mod Required
use webserv_team.Base.{
  ℕ, zero, suc, ◌+◌, ◌-◌, ◌*◌, ◌/◌, ◌%◌, ◌^◌, ◌≤◌, ◌<◌, min, ◌≡◌, refl, sym, ap, ◌∙◌, ◌≢◌, ◌↔◌, ◌⊎◌,
  inl, inr, Bool, true, false, not, ◌&&◌, ◌||◌, Option, none, some, List, [], ◌∷◌, ◌++◌, map,
  String, arith, ltb, leb, ◌==◌, if◌then◌else◌, ==_iff, Bool-cases, Option-cases, Bytes, codes,
  length, is_empty, take, drop, length-append, length-take, length-drop, take-append-drop,
  take-append, drop-append, take-append_long, drop-append_long, take_all, drop_all, take-min,
  drop-min, All, All-append, ◌=ᵇ◌, =ᵇ_iff, =ᵇ_self, has_byte, cut, cut-append, starts_with, find,
  ends_in, starts_in,
}
use webserv_team.Dict.{Dict, insert, erase, lookup, has_key, value_at}
use webserv_team.Config.{ServerConfig, Location, find_page}
use webserv_team.Request.{RequestParser}
use webserv_team.Request.Routing.{last_cut, is_cgi_request, is_connection_close}
use webserv_team.Response.{Os, ResponseBuilder, set_headers, set_status, to_string}

unfoldable pub webserv_name : Bytes
webserv_name = codes "Not Nginx/4.2"

unfoldable pub mime_types : Dict
mime_types =
    (codes ".html", codes "text/html")
    ∷ (codes ".htm", codes "text/html")
    ∷ (codes ".css", codes "text/css")
    ∷ (codes ".js", codes "application/javascript")
    ∷ (codes ".json", codes "application/json")
    ∷ (codes ".xml", codes "application/xml")
    ∷ (codes ".txt", codes "text/plain")
    ∷ (codes ".jpg", codes "image/jpeg")
    ∷ (codes ".jpeg", codes "image/jpeg")
    ∷ (codes ".png", codes "image/png")
    ∷ (codes ".gif", codes "image/gif")
    ∷ (codes ".svg", codes "image/svg+xml")
    ∷ (codes ".ico", codes "image/x-icon")
    ∷ (codes ".webp", codes "image/webp")
    ∷ (codes ".mp4", codes "video/mp4")
    ∷ (codes ".webm", codes "video/webm")
    ∷ (codes ".ogg", codes "video/ogg")
    ∷ (codes ".mp3", codes "audio/mpeg")
    ∷ (codes ".wav", codes "audio/wav")
    ∷ (codes ".pdf", codes "application/pdf")
    ∷ (codes ".csv", codes "text/csv")
    ∷ (codes ".doc", codes "application/msword")
    ∷ (
      codes ".docx",
      codes "application/vnd.openxmlformats-officedocument.wordprocessingml.document",
    )
    ∷ (codes ".xls", codes "application/vnd.ms-excel")
    ∷ (codes ".xlsx", codes "application/vnd.openxmlformats-officedocument.spreadsheetml.sheet")
    ∷ (codes ".ppt", codes "application/vnd.ms-powerpoint")
    ∷ (
      codes ".pptx",
      codes "application/vnd.openxmlformats-officedocument.presentationml.presentation",
    )
    ∷ (codes ".zip", codes "application/zip")
    ∷ (codes ".rar", codes "application/x-rar-compressed")
    ∷ (codes ".tar", codes "application/x-tar")
    ∷ (codes ".gz", codes "application/gzip")
    ∷ (codes ".iso", codes "application/x-iso9660-image")
    ∷ (codes ".bin", codes "application/octet-stream")
    ∷ (codes ".apk", codes "application/vnd.android.package-archive")
    ∷ (codes ".exe", codes "application/x-msdownload")
    ∷ []

unfoldable pub detect_mime_type : Bytes → Bytes
detect_mime_type path =
    let extension : Option Bytes = elim (last_cut b'.' path) [
      | none ↦ none
      | some (base, e) ↦ lookup (b'.' ∷ e) mime_types
    ] in
    elim extension [ none ↦ codes "application/octet-stream" | some t ↦ t ]

unfoldable pub content_type : Bytes
content_type = codes "Content-Type"

-- A file that cannot be read has the empty text, and leaves the headers.
unfoldable pub read_file :
    {W : Type 0} → Os W → W → Bytes → ResponseBuilder → Bytes × ResponseBuilder
read_file os w filename r = elim (os.content_of filename w) [
  | none ↦ ([], r)
  | some text ↦ (text, set_headers content_type (detect_mime_type filename) r)
]

unfoldable pub default_page : Bytes → Bytes
default_page status =
    codes "<html>\n<head>\n<title>"
    ++ status
    ++ codes "</title>\n</head>\n"
    ++ codes "<body style=\"font-family:sans-serif;\">\n<center><h1>"
    ++ status
    ++ codes "</h1></center><hr />\n"
    ++ codes "<center>"
    ++ webserv_name
    ++ codes "</center>\n"
    ++ codes "</body>\n</html>\n"

-- The file of the error page, if the server has one and it is not empty.
unfoldable pub custom_page : {W : Type 0} → Os W → W → ResponseBuilder → Bytes × ResponseBuilder
custom_page os w r = elim r.server_config [
  | none ↦ ([], r)
  | some server ↦ elim (find_page r.status_code server.error_pages) [
    | none ↦ ([], r)
    | some name ↦ read_file os w name r
  ]
]

-- `body = generate_error_page()`.
unfoldable pub error_page : {W : Type 0} → Os W → W → ResponseBuilder → ResponseBuilder
error_page os w r =
    let (page, r') = custom_page os w r in
    if not (is_empty page)
    then record r' { body = page }
    else record (set_headers content_type (codes "text/html") r') { body = default_page r'.status }

-- `set_status(code); body = generate_error_page();`.
unfoldable pub fail_with : {W : Type 0} → Os W → W → ℕ → ResponseBuilder → ResponseBuilder
fail_with os w code r = error_page os w (set_status code r)

unfoldable pub default_root : Bytes
default_root =
    codes "<html>\n<head>\n<title>Welcome to Webserv!</title>\n</head>\n"
    ++ codes
        "<body style=\"font-family:sans-serif;\">\n<center><h1>Welcome to Webserv!</h1></center>\n"
    ++ codes
        "<center><p style=\"font-size:20px;\">If you see this page, the web server is successfully compiled and working. Further configuration is required.<br />Thank you for testing our web server.</p></center>\n"
    ++ codes "</body>\n</html>\n"

-- `body = generate_default_root()`.
unfoldable pub default_root_page : ResponseBuilder → ResponseBuilder
default_root_page r = record (set_headers content_type (codes "text/html") r) {
  body = default_root;
}

unfoldable pub is_directory_at : {W : Type 0} → Os W → W → Bytes → Bool
is_directory_at os w path = elim (os.stat path w) [ none ↦ false | some s ↦ s.is_directory ]

abbrev pub is_dots : Bytes → Bool
is_dots name = name =ᵇ codes "." || name =ᵇ codes ".."

abbrev listing_entry : Bytes → Bytes → Bytes → Bytes
listing_entry name slash date =
    codes "<li style=\"letter-spacing:1.5;font-size:18px;\"><a href=\""
    ++ name
    ++ slash
    ++ codes "\">"
    ++ name
    ++ slash
    ++ codes "</a>&emsp;&emsp;&emsp;"
    ++ date
    ++ codes "&emsp;&emsp;&emsp;-</li><br>\n"

unfoldable pub listing_entries : {W : Type 0} → Os W → W → Bytes → List Bytes → Bytes
listing_entries os w path [] = []
listing_entries os w path (name ∷ names) =
    let rest = listing_entries os w path names in
    let slash = if is_directory_at os w (path ++ b'/' ∷ name) then codes "/" else [] in
    if is_dots name then rest else listing_entry name slash (os.http_date w) ++ rest

-- `generate_directory_listing`: no text for a directory that cannot be opened.
unfoldable pub directory_listing :
    {W : Type 0} → Os W → W → Bytes → ResponseBuilder → Bytes × ResponseBuilder
directory_listing os w path r = elim (os.list_directory path w) [
  | none ↦ ([], r)
  | some names ↦ (
    codes "<html>\n<head>\n<title>Directory Listing</title>\n</head>\n"
        ++ codes
            "<body>\n<h1 style=\"color:#4b4b4b;font-family:sans-serif;\">Directory Listing for "
        ++ path
        ++ codes "</h1><hr>\n"
        ++ codes "<ul>\n"
        ++ listing_entries os w path names
        ++ codes "</ul>\n</body>\n</html>",
    set_headers content_type (codes "text/html") r,
  )
]

unfoldable pub upload_success_page : Bytes → ResponseBuilder → ResponseBuilder
upload_success_page filename r = record (set_headers content_type (codes "text/html") r) {
  body =
      codes "<html>\n"
      ++ codes "<head>\n<title>Upload Successful</title>\n</head>\n"
      ++ codes "<body>\n"
      ++ codes "<h1 style=\"color:#4b4b4b;font-family:sans-serif;\">File Upload Successful</h1>\n"
      ++ codes "<p>Your file has been uploaded successfully.</p>\n"
      ++ codes "<p><strong>Saved as:</strong> "
      ++ filename
      ++ codes "</p>\n"
      ++ codes "</body>\n"
      ++ codes "</html>\n";
}

-- The methods with `, ` between them.
unfoldable pub join_methods : List Bytes → Bytes
join_methods [] = []
join_methods (m ∷ []) = m
join_methods (m ∷ (n ∷ ms)) = m ++ codes ", " ++ join_methods (n ∷ ms)

unfoldable pub add_content_type : ResponseBuilder → ResponseBuilder
add_content_type r =
    if has_key content_type r.headers || is_cgi_request r.request
    then r
    else set_headers content_type (detect_mime_type r.request.request_uri) r

unfoldable pub add_framing : ResponseBuilder → ResponseBuilder
add_framing r =
    if has_key (codes "Transfer-Encoding") r.headers
    then (if value_at (codes "Transfer-Encoding") r.headers =ᵇ codes "chunked"
        then record r { headers = erase (codes "Content-Length") r.headers }
        else r)
    else set_headers (codes "Content-Length") (to_string (length r.body)) r

unfoldable pub add_connection : ResponseBuilder → ResponseBuilder
add_connection r =
    if has_key (codes "Connection") r.headers
    then r
    else set_headers (codes "Connection")
        (if is_connection_close r.request then codes "close" else codes "keep-alive") r

unfoldable pub add_allow : ResponseBuilder → ResponseBuilder
add_allow r = elim r.location_config [
  | none ↦ r
  | some l ↦
      if r.status_code == 405 && not (has_key (codes "Allow") r.headers)
      then set_headers (codes "Allow") (join_methods l.allowed_methods) r
      else r
]

unfoldable pub include_required_headers :
    {W : Type 0} → Os W → W → ResponseBuilder → ResponseBuilder
include_required_headers os w r =
    let r₁ = set_headers (codes "Server") webserv_name r in
    let r₂ = set_headers (codes "Date") (os.http_date w) r₁ in
    add_allow (add_connection (add_framing (add_content_type r₂)))
