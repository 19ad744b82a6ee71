-- ===== src/Response/Multipart.antt =====
-- `handleMultipartFormData` and `save_uploaded_file` of srcs/ReqRes/ResponseBuilder.cpp. The loop
-- stands at the text of the body from `pos` on. `content_length`, which is not read, is left out.
pub mod Names
pub mod Enough
use webserv_team.Base.{
  ℕ, zero, suc, ◌+◌, ◌-◌, ◌*◌, ◌/◌, ◌%◌, ◌^◌, ◌≤◌, ◌<◌, min, ◌≡◌, refl, sym, ap, ◌∙◌, ◌≢◌, ◌↔◌, ◌⊎◌,
  inl, inr, Bool, true, false, not, ◌&&◌, ◌||◌, Option, none, some, List, [], ◌∷◌, ◌++◌, map,
  String, arith, ltb, leb, ◌==◌, if◌then◌else◌, ==_iff, Bool-cases, Option-cases, Bytes, codes,
  length, is_empty, take, drop, length-append, length-take, length-drop, take-append-drop,
  take-append, drop-append, take-append_long, drop-append_long, take_all, drop_all, take-min,
  drop-min, All, All-append, ◌=ᵇ◌, =ᵇ_iff, =ᵇ_self, has_byte, cut, cut-append, starts_with, find,
  ends_in, starts_in,
}
use webserv_team.Config.{Location}
use webserv_team.Response.{Os, ResponseBuilder, set_headers, set_status}
use webserv_team.Response.Pages.{upload_success_page}

abbrev pub crlf : Bytes
crlf = 13 ∷ 10 ∷ []

abbrev pub double_crlf : Bytes
double_crlf = 13 ∷ 10 ∷ 13 ∷ 10 ∷ []

-- `s.find(p) != npos`.
unfoldable pub contains : Bytes → Bytes → Bool
contains p s = elim (find p s) [ none ↦ false | some i ↦ true ]

-- The text in front of `p` and the text behind it.
unfoldable pub split_at : Bytes → Bytes → Option (Bytes × Bytes)
split_at p s = elim (find p s) [ none ↦ none | some i ↦ some (take i s, drop (i + length p) s) ]

-- The file name of a part, unless it is missing or not accepted.
unfoldable pub part_name : Bytes → Option Bytes
part_name headers = elim (split_at (codes "filename=\"") headers) [
  | none ↦ none
  | some (before, quoted) ↦ elim (cut b'"' quoted) [
    | none ↦ none
    | some (name, after) ↦
        if is_empty name || contains (codes "..") name || has_byte b'/' name
        then none
        else some name
  ]
]

-- A part with an accepted file name: the file is written, and the response tells where.
unfoldable pub save_part :
    {W : Type 0} → Os W → Bytes → Bytes → Bytes → ResponseBuilder × W → ResponseBuilder × W
unfolding set_headers set_status upload_success_page
save_part os upload_store name content (r, w) =
    let safe_name = codes "upload_" ++ os.timestamp w ++ b'_' ∷ name in
    let full_path = upload_store ++ b'/' ∷ safe_name in
    let (saved, w') = os.write_file full_path content w in
    if saved
    then (
      upload_success_page safe_name (set_status 201 (set_headers (codes "Location") full_path r)),
      w',
    )
    else (r, w')

unfoldable pub store_part :
    {W : Type 0} → Os W → Bytes → Bytes → Bytes → ResponseBuilder × W → ResponseBuilder × W
store_part os upload_store headers content st = elim (part_name headers) [
  | none ↦ st
  | some name ↦ save_part os upload_store name content st
]

-- A part from behind its boundary: its headers, its content, and the text that the loop goes on with.
unfoldable pub read_part : Bytes → Bytes → Option (Bytes × Bytes × Bytes)
read_part boundary rest =
    let start = if take 2 rest =ᵇ crlf then drop 2 rest else rest in
    if take 2 rest =ᵇ codes "--" then none else elim (split_at double_crlf start) [
      | none ↦ none
      | some (headers, from) ↦ elim (find boundary from) [
        | none ↦ none
        | some i ↦ some (headers, take i from, from)
      ]
    ]

-- The loop over the parts. Each moves `pos` on, so the length of the body is enough fuel; `none` tells
-- that the fuel has run out in the middle of the loop.
unfoldable pub parts_loop :
    {W : Type 0}
    → Os W
    → Bytes
    → Bytes
    → ℕ
    → Bytes
    → ResponseBuilder × W
    → Option (ResponseBuilder × W)
parts_loop os upload_store boundary zero text st = none
parts_loop os upload_store boundary (suc fuel) text st = elim (split_at boundary text) [
  | none ↦ some st
  | some (before, rest) ↦ elim (read_part boundary rest) [
    | none ↦ some st
    | some (headers, content, from) ↦
        parts_loop os upload_store boundary fuel from
          (store_part os upload_store headers content st)
  ]
]

-- The result tells whether a boundary was given. The loop has more fuel than the body has bytes, so it
-- does not run out and the second `none` is not met.
unfoldable pub handle_multipart_form_data :
    {W : Type 0} → Os W → Bytes → Bytes → Bytes → ResponseBuilder × W → Bool × ResponseBuilder × W
handle_multipart_form_data os upload_store content_type text st =
    elim (split_at (codes "boundary=") content_type) [
      | none ↦ (false, st.0, st.1)
      | some (before, name) ↦
          elim (parts_loop os upload_store (codes "--" ++ name) (suc (length text)) text st) [
            | none ↦ (true, st.0, st.1)
            | some st' ↦ (true, st'.0, st'.1)
          ]
    ]
