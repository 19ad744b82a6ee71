-- ===== src/Response/Multipart/Enough.antt =====
-- That the loop over the parts of a form ends.
use webserv_team.Base.{
  ℕ, zero, suc, ◌+◌, ◌≤◌, ◌<◌, ◌≡◌, refl, inl, inr, Bool, true, false, some, [], ◌∷◌, arith,
  if◌then◌else◌, Bool-cases, Option-cases, Bytes, codes, length, is_empty, take, drop, length-drop,
  ◌=ᵇ◌, find,
}
use webserv_team.Response.{Os, ResponseBuilder}
use webserv_team.Response.Multipart.{split_at, store_part, read_part, parts_loop, crlf, double_crlf}

split_at-length : (p s a b : Bytes) → split_at p s ≡ some (a, b) → length b ≤ length s
unfolding split_at
split_at-length p s a b e = elim (Option-cases (find p s)) [
  | inl e' ↦ ground arith
  | inr (i, e') ↦ ground (arith, length-drop (i + length p) s)
]

split_at-shorter :
    (p s a b : Bytes) → is_empty p ≡ false → split_at p s ≡ some (a, b) → length b < length s
unfolding split_at find
split_at-shorter (c ∷ p) [] a b full e = ground arith
split_at-shorter (c ∷ p) (x ∷ s) a b full e = elim (Option-cases (find (c ∷ p) (x ∷ s))) [
  | inl e' ↦ ground arith
  | inr (i, e') ↦ ground (arith, length-drop (i + length (c ∷ p)) (x ∷ s))
]
split_at-shorter [] s a b full e = ground arith

start-length : (b : Bool) (s : Bytes) → length (if b then drop 2 s else s) ≤ length s
start-length true s = ground (arith, length-drop 2 s)
start-length false s = omega arith

read_part-shorter :
    (boundary rest headers content from : Bytes)
    → read_part boundary rest ≡ some (headers, content, from)
    → length from < length rest
unfolding read_part
read_part-shorter boundary rest headers content from e =
    let start = if take 2 rest =ᵇ crlf then drop 2 rest else rest in
    let shorter = start-length (take 2 rest =ᵇ crlf) rest in
    elim (Bool-cases (take 2 rest =ᵇ codes "--")) [
      | inl last ↦ ground arith
      | inr more ↦ elim (Option-cases (split_at double_crlf start)) [
        | inl e' ↦ ground arith
        | inr ((h, f), e') ↦ elim (Option-cases (find boundary f)) [
          | inl e'' ↦ ground arith
          | inr (i, e'') ↦ let less = split_at-shorter double_crlf start h f refl e' in ground arith
        ]
      ]
    ]

-- The loop over the parts of a form ends on every text, boundary and machine: with more fuel than the text has bytes it comes to its own end and does not run out.
pub parts_loop_ends :
    {W : Type 0} (os : Os W) (upload_store boundary : Bytes) (n : ℕ) (text : Bytes)
    (st : ResponseBuilder × W)
    → length text < n
    → (st' : ResponseBuilder × W) × (parts_loop os upload_store boundary n text st ≡ some st')
unfolding parts_loop
parts_loop_ends os upload_store boundary zero text st h = absurd (omega arith)
parts_loop_ends os upload_store boundary (suc n) text st h =
    elim (Option-cases (split_at boundary text)) [
      | inl e ↦ (st, ground arith)
      | inr ((before, rest), e) ↦ elim (Option-cases (read_part boundary rest)) [
        | inl e' ↦ (st, ground arith)
        | inr ((headers, content, from), e') ↦
            let le = split_at-length boundary text before rest e in
            let lt = read_part-shorter boundary rest headers content from e' in
            let (st', run) =
              parts_loop_ends os upload_store boundary n from
                (store_part os upload_store headers content st) (omega arith) in
            (st', ground arith)
      ]
    ]
