-- ===== src/Response/Multipart/Names.antt =====
-- Where the parts of a form are written, and that the loop over them ends.
use webserv_team.Base.{
  ℕ, zero, suc, ◌≡◌, sym, inl, inr, false, some, ◌∷◌, ◌++◌, arith, Bool-cases, Option-cases, Bytes,
  codes, length, is_empty, has_byte, cut,
}
use mathlib.Core.Path.{subst}
use webserv_team.Response.{Os, ResponseBuilder}
use webserv_team.Response.Multipart.{
  contains, split_at, part_name, save_part, store_part, read_part, parts_loop,
  handle_multipart_form_data,
}

-- A name that stays in the directory where it is put.
pub record IsLocalName (name : Bytes) : Type 0 where
  pub no_slash : has_byte b'/' name ≡ false
  pub no_dots : contains (codes "..") name ≡ false
  pub not_empty : is_empty name ≡ false

-- The machine after any number of writes of files of the store, each named `upload_`, the time stamp
-- that the machine gives right before the write, `_` and a local name.
pub data Stores {W : Type 0} (os : Os W) (upload_store : Bytes) (w : W) : W → Type 0 where
  nothing : Stores os upload_store w w
  written :
      (u : W) (name content : Bytes)
      → Stores os upload_store w u
      → IsLocalName name
      → Stores os upload_store w
          (os.write_file
            (upload_store ++ b'/' ∷ (codes "upload_" ++ os.timestamp u ++ b'_' ∷ name))
            content
            u).1

part_name-IsLocalName : (headers name : Bytes) → part_name headers ≡ some name → IsLocalName name
unfolding part_name
part_name-IsLocalName headers name e =
    elim (Option-cases (split_at (codes "filename=\"") headers)) [
      | inl none_here ↦ ground arith
      | inr ((before, quoted), found) ↦ elim (Option-cases (cut b'"' quoted)) [
        | inl open_quote ↦ ground arith
        | inr ((given, after), found') ↦ record {
          no_slash = ground arith;
          no_dots = ground arith;
          not_empty = ground arith;
        }
      ]
    ]

save_part-world :
    {W : Type 0} (os : Os W) (upload_store name content : Bytes) (r : ResponseBuilder) (w : W)
    → (save_part os upload_store name content (r, w)).1
      ≡ (os.write_file
          (upload_store ++ b'/' ∷ (codes "upload_" ++ os.timestamp w ++ b'_' ∷ name))
          content
          w).1
unfolding save_part
save_part-world os upload_store name content r w =
    elim (Bool-cases
      (os.write_file (upload_store ++ b'/' ∷ (codes "upload_" ++ os.timestamp w ++ b'_' ∷ name))
        content w).0) [ inl saved ↦ ground arith | inr failed ↦ ground arith ]

Stores-along :
    {W : Type 0} (os : Os W) (upload_store : Bytes) (w : W) {u v : W}
    → Stores os upload_store w u
    → v ≡ u
    → Stores os upload_store w v
Stores-along os upload_store w s e = subst (Stores os upload_store w) (sym e) s

store_part-Stores :
    {W : Type 0} (os : Os W) (upload_store headers content : Bytes) (w : W)
    (st : ResponseBuilder × W)
    → Stores os upload_store w st.1
    → Stores os upload_store w (store_part os upload_store headers content st).1
unfolding store_part
store_part-Stores os upload_store headers content w (r, u) s =
    elim (Option-cases (part_name headers)) [
      | inl e ↦ Stores-along os upload_store w s (ground arith)
      | inr (name, e) ↦
          Stores-along os upload_store w
            (written u name content s (part_name-IsLocalName headers name e))
            (ground (arith, save_part-world os upload_store name content r u))
    ]

parts_loop-Stores :
    {W : Type 0} (os : Os W) (upload_store boundary : Bytes) (w : W) (fuel : ℕ) (text : Bytes)
    (st st' : ResponseBuilder × W)
    → Stores os upload_store w st.1
    → parts_loop os upload_store boundary fuel text st ≡ some st'
    → Stores os upload_store w st'.1
unfolding parts_loop
parts_loop-Stores os upload_store boundary w zero text st st' s run = absurd (ground arith)
parts_loop-Stores os upload_store boundary w (suc fuel) text st st' s run =
    elim (Option-cases (split_at boundary text)) [
      | inl e ↦ Stores-along os upload_store w s (ground arith)
      | inr ((before, rest), e) ↦ elim (Option-cases (read_part boundary rest)) [
        | inl e' ↦ Stores-along os upload_store w s (ground arith)
        | inr ((headers, content, from), e') ↦
            parts_loop-Stores os upload_store boundary w fuel from
              (store_part os upload_store headers content st) st'
              (store_part-Stores os upload_store headers content w st s) (ground arith)
      ]
    ]

-- A form changes the machine only by writes of files of the store, whose names are `upload_`, the time
-- stamp of the moment of the write, `_` and a name that is not empty and has neither a slash nor `..`,
-- whatever the client sends.
pub handle_multipart_form_data-Stores :
    {W : Type 0} (os : Os W) (upload_store content_type text : Bytes) (r : ResponseBuilder) (w : W)
    → Stores os upload_store w
        (handle_multipart_form_data os upload_store content_type text (r, w)).2
unfolding handle_multipart_form_data
handle_multipart_form_data-Stores os upload_store content_type text r w =
    elim (Option-cases (split_at (codes "boundary=") content_type)) [
      | inl e ↦ Stores-along os upload_store w nothing (ground arith)
      | inr ((before, name), e) ↦
          let run =
            parts_loop os upload_store (codes "--" ++ name) (suc (length text)) text (r, w) in
          elim (Option-cases run) [
            | inl out ↦ Stores-along os upload_store w nothing (ground arith)
            | inr (st', e') ↦
                Stores-along os upload_store w
                  (parts_loop-Stores os upload_store (codes "--" ++ name) w (suc (length text)) text
                    (r, w) st' nothing e')
                  (ground arith)
          ]
    ]
