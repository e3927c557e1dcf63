-- ===== src/Pagination/RoundTrip.antt =====
-- A cursor of backend/src/utils/pagination.js comes back as the anchor that it was made of.
use renuzi_ops_platform.Prelude.{
  ℕ, ◌≤◌, pos, ◌≡◌, refl, sym, ap, ◌∙◌, Bool, true, false, ◌&&◌, not, Option, some, List, [], ◌∷◌,
  ◌++◌, ◌==◌, ltb, length, arith, Bool-cases, inl, inr, ==-refl,
}
use mathlib.Core.Path.{subst}
use renuzi_ops_platform.Exec.{is_ok, ok}
use renuzi_ops_platform.Processors.{same_text}
use renuzi_ops_platform.Pagination.Cursor.{
  integer, Anchor, Versioned, CursorInput, split_dots, two_parts, checked_payload, decode_cursor,
  encode_cursor, max_cursor_chars, is_valid_cursor_payload, to_cursor_payload,
}

-- A text of a signed token: some characters, none of them a dot.
abbrev pub no_dot : List ℕ → Bool
no_dot [] = true
no_dot (c ∷ cs) = not (c == b'.') && no_dot cs

abbrev pub is_part : List ℕ → Bool
is_part [] = false
is_part (c ∷ cs) = no_dot (c ∷ cs)

pub split_dots-no_dot : (s : List ℕ) → no_dot s ≡ true → split_dots s ≡ s ∷ []
unfolding split_dots
split_dots-no_dot [] h = refl
split_dots-no_dot (c ∷ cs) h =
    let rest = split_dots-no_dot cs (ground arith) in
    let here : (c == b'.') ≡ false = ground arith in rw (here, rest) refl

split_dots-two :
    (b s : List ℕ) → no_dot b ≡ true → no_dot s ≡ true → split_dots (b ++ (b'.' ∷ s)) ≡ b ∷ s ∷ []
unfolding split_dots
split_dots-two [] s hb hs = ap (λ x. [] ∷ x) (split_dots-no_dot s hs)
split_dots-two (c ∷ b) s hb hs =
    let rest = split_dots-two b s (ground arith) hs in
    let here : (c == b'.') ≡ false = ground arith in rw (here, rest) refl

two_parts-two :
    (b s : List ℕ) → is_part b ≡ true → is_part s ≡ true → two_parts (b ∷ s ∷ []) ≡ some (b, s)
unfolding two_parts
two_parts-two [] s hb hs = cc
two_parts-two (c ∷ b) [] hb hs = cc
two_parts-two (c ∷ b) (d ∷ s) hb hs = refl

pub part_no_dot : (b : List ℕ) → is_part b ≡ true → no_dot b ≡ true
part_no_dot [] h = cc
part_no_dot (c ∷ b) h = h

pub same_text_refl : (s : List ℕ) → same_text s s ≡ true
same_text_refl [] = refl
same_text_refl (c ∷ s) = rw (==-refl c) (same_text_refl s)

module _ (sign : List ℕ → List ℕ) (to_body : Versioned → List ℕ)
    (of_body : List ℕ → Option Versioned) where
  decode_cursor-token :
      (body : List ℕ)
      → is_part body ≡ true
      → is_part (sign body) ≡ true
      → length (body ++ (b'.' ∷ sign body)) ≤ max_cursor_chars
      → decode_cursor sign to_body of_body (body ++ (b'.' ∷ sign body))
        ≡ checked_payload sign to_body of_body (of_body body)
  unfolding decode_cursor
  decode_cursor-token [] hb hs short = cc
  decode_cursor-token (c ∷ b) hb hs short =
      let fits : ltb max_cursor_chars (length (c ∷ (b ++ (b'.' ∷ sign (c ∷ b))))) ≡ false =
        ground arith in
      let parts =
        split_dots-two (c ∷ b) (sign (c ∷ b)) (part_no_dot (c ∷ b) hb)
          (part_no_dot (sign (c ∷ b)) hs) in
      let two = two_parts-two (c ∷ b) (sign (c ∷ b)) hb hs in
      rw (fits, parts, two, same_text_refl (sign (c ∷ b))) refl

  abbrev pub body_of : Anchor → List ℕ
  body_of a = to_body (record { v = integer (pos 1); anchor = a })

  encode_cursor-valid :
      (a : Anchor)
      → is_valid_cursor_payload a ≡ true
      → encode_cursor sign to_body of_body (CursorInput.anchored a)
        ≡ ok (body_of a ++ (b'.' ∷ sign (body_of a)))
  unfolding encode_cursor to_cursor_payload
  encode_cursor-valid a valid = rw valid refl

  encode_cursor-invalid :
      (a : Anchor)
      → is_valid_cursor_payload a ≡ false
      → is_ok (encode_cursor sign to_body of_body (CursorInput.anchored a)) ≡ false
  unfolding encode_cursor to_cursor_payload
  encode_cursor-invalid a invalid = rw invalid refl

  checked_payload-valid :
      (a : Anchor)
      → is_valid_cursor_payload a ≡ true
      → of_body (body_of a) ≡ some (record { v = integer (pos 1); anchor = a })
      → checked_payload sign to_body of_body (of_body (body_of a)) ≡ ok a
  checked_payload-valid a valid back = rw (back, valid) refl

  -- A token that encodeCursor makes of an anchor decodes to that anchor, if the body decodes to
  -- what was encoded, neither the body nor its signature is empty or holds a dot, and the token has
  -- at most 1024 characters.
  pub decode_cursor-encode_cursor :
      (a : Anchor) (token : List ℕ)
      → encode_cursor sign to_body of_body (CursorInput.anchored a) ≡ ok token
      → of_body (body_of a) ≡ some (record { v = integer (pos 1); anchor = a })
      → is_part (body_of a) ≡ true
      → is_part (sign (body_of a)) ≡ true
      → length token ≤ max_cursor_chars
      → decode_cursor sign to_body of_body token ≡ ok a
  decode_cursor-encode_cursor a token made back hb hs short =
      elim (Bool-cases (is_valid_cursor_payload a)) [
        | inr invalid ↦
            let refused = encode_cursor-invalid a invalid in let told = ap is_ok made in cc
        | inl valid ↦
            let whole = encode_cursor-valid a valid in
            let same : body_of a ++ (b'.' ∷ sign (body_of a)) ≡ token = cc in
            ap (decode_cursor sign to_body of_body) (sym same)
            ∙ decode_cursor-token (body_of a) hb hs
                (subst (λ t. length t ≤ max_cursor_chars) (sym same) short)
            ∙ checked_payload-valid a valid back
      ]
