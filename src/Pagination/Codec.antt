-- ===== src/Pagination/Codec.antt =====
-- What the signed cursors of backend/src/utils/pagination.js promise.
use renuzi_ops_platform.Prelude.{
  ℕ, ◌≡◌, refl, sym, ap, ◌∙◌, Bool, true, false, ◌&&◌, Option, none, some, List, [], ◌∷◌, ◌++◌,
  ◌==◌, inl, inr, ltb, length, if◌then◌else◌, arith, Bool-cases,
}
use mathlib.Core.Path.{subst}
use renuzi_ops_platform.Exec.{ok}
use renuzi_ops_platform.Processors.{same_text}
use renuzi_ops_platform.Pagination.Cursor.{
  Anchor, Versioned, push, split_dots, two_parts, invalid_cursor, checked_payload, checked_parts,
  decode_cursor, max_cursor_chars, is_version_1, is_valid_cursor_payload,
}

abbrev pub parts_join : List (List ℕ) → List ℕ
parts_join [] = []
parts_join (p ∷ []) = p
parts_join (p ∷ q ∷ ps) = p ++ (b'.' ∷ parts_join (q ∷ ps))

abbrev is_cons : List (List ℕ) → Bool
is_cons [] = false
is_cons (p ∷ ps) = true

push_join :
    (b : Bool) (c : ℕ) (parts : List (List ℕ))
    → (c == b'.') ≡ b
    → is_cons parts ≡ true
    → parts_join (push b c parts) ≡ c ∷ parts_join parts
push_join b c [] e h = cc
push_join true c (part ∷ parts) e h =
    let same : c ≡ b'.' = ground arith in ap (λ n. n ∷ parts_join (part ∷ parts)) (sym same)
push_join false c (part ∷ []) e h = refl
push_join false c (part ∷ q ∷ ps) e h = refl

is_cons-push : (b : Bool) (c : ℕ) (parts : List (List ℕ)) → is_cons (push b c parts) ≡ true
is_cons-push true c parts = refl
is_cons-push false c [] = refl
is_cons-push false c (p ∷ ps) = refl

is_cons-split_dots : (s : List ℕ) → is_cons (split_dots s) ≡ true
unfolding split_dots
is_cons-split_dots [] = refl
is_cons-split_dots (c ∷ cs) = is_cons-push (c == b'.') c (split_dots cs)

-- A text is its parts with the dots between them.
pub parts_join-split_dots : (s : List ℕ) → parts_join (split_dots s) ≡ s
unfolding split_dots
parts_join-split_dots [] = refl
parts_join-split_dots (c ∷ cs) =
    push_join (c == b'.') c (split_dots cs) refl (is_cons-split_dots cs)
    ∙ ap (λ t. c ∷ t) (parts_join-split_dots cs)

two_parts-some :
    (parts : List (List ℕ)) (b s : List ℕ) → two_parts parts ≡ some (b, s) → parts ≡ b ∷ s ∷ []
unfolding two_parts
two_parts-some [] b s h = cc
two_parts-some ([] ∷ ps) b s h = cc
two_parts-some ((x ∷ xs) ∷ []) b s h = cc
two_parts-some ((x ∷ xs) ∷ [] ∷ ps) b s h = cc
two_parts-some ((x ∷ xs) ∷ (y ∷ ys) ∷ []) b s h = cc
two_parts-some ((x ∷ xs) ∷ (y ∷ ys) ∷ p ∷ ps) b s h = cc

pub same_text-true : (s t : List ℕ) → same_text s t ≡ true → s ≡ t
same_text-true [] [] h = refl
same_text-true [] (b ∷ t) h = cc
same_text-true (a ∷ s) [] h = cc
same_text-true (a ∷ s) (b ∷ t) h =
    let first : a ≡ b = ground arith in
    let rest = same_text-true s t (ground arith) in ap (λ x. x ∷ s) first ∙ ap (λ x. b ∷ x) rest

module _ (sign : List ℕ → List ℕ) (to_body : Versioned → List ℕ)
    (of_body : List ℕ → Option Versioned) where
  checked_parts-ok :
      (parts : Option (List ℕ × List ℕ)) (a : Anchor)
      → checked_parts sign to_body of_body parts ≡ ok a
      → (body : List ℕ) × ((parts ≡ some (body, sign body))
          × (checked_payload sign to_body of_body (of_body body) ≡ ok a))
  checked_parts-ok none a h = cc
  checked_parts-ok (some (body, signature)) a h =
      elim (Bool-cases (same_text signature (sign body))) [
        | inl same ↦ (
          body,
          (
            ap (λ s. some (body, s)) (same_text-true signature (sign body) same),
            subst
                (λ x.
                  (if x
                    then checked_payload sign to_body of_body (of_body body)
                    else invalid_cursor)
                  ≡ ok a)
                same h,
          ),
        )
        | inr other ↦
            let bad : invalid_cursor {A = Anchor} ≡ ok a =
              subst
                (λ x.
                  (if x
                    then checked_payload sign to_body of_body (of_body body)
                    else invalid_cursor)
                  ≡ ok a)
                other h in
            cc
      ]

  payload-ok :
      (found : Option Versioned) (a : Anchor)
      → checked_payload sign to_body of_body found ≡ ok a
      → (p : Versioned) × ((found ≡ some p)
          × ((p.anchor ≡ a) × ((is_version_1 p.v && is_valid_cursor_payload p.anchor) ≡ true)))
  payload-ok none a h = cc
  payload-ok (some p) a h =
      elim (Bool-cases (is_version_1 p.v && is_valid_cursor_payload p.anchor)) [
        | inl good ↦
            let same : ok p.anchor ≡ ok a =
              subst (λ x. (if x then ok p.anchor else invalid_cursor) ≡ ok a) good h in
            (p, (refl, (cc, good)))
        | inr bad ↦
            let wrong : invalid_cursor {A = Anchor} ≡ ok a =
              subst (λ x. (if x then ok p.anchor else invalid_cursor) ≡ ok a) bad h in
            cc
      ]

  decoded-parts :
      (c : ℕ) (cs : List ℕ) (a : Anchor)
      → decode_cursor sign to_body of_body (c ∷ cs) ≡ ok a
      → checked_parts sign to_body of_body (two_parts (split_dots (c ∷ cs))) ≡ ok a
  unfolding decode_cursor
  decoded-parts c cs a h = elim (Bool-cases (ltb max_cursor_chars (length (c ∷ cs)))) [
    | inl long ↦
        let wrong : invalid_cursor {A = Anchor} ≡ ok a =
          subst
            (λ x.
              (if x
                then invalid_cursor
                else checked_parts sign to_body of_body (two_parts (split_dots (c ∷ cs))))
              ≡ ok a)
            long h in
        cc
    | inr fine ↦
        subst
          (λ x.
            (if x
              then invalid_cursor
              else checked_parts sign to_body of_body (two_parts (split_dots (c ∷ cs))))
            ≡ ok a)
          fine h
  ]

  -- What is known of a token that is accepted.
  abbrev pub IsSigned : List ℕ → Anchor → Type 0
  IsSigned token a =
      (body : List ℕ) × ((token ≡ body ++ (b'.' ∷ sign body))
        × ((p : Versioned) × ((of_body body ≡ some p)
              × ((p.anchor ≡ a)
                  × ((is_version_1 p.v && is_valid_cursor_payload p.anchor) ≡ true)))))

  -- A token that decodeCursor accepts is a body, a dot and the signature of that body, and the body
  -- decodes to version 1 of the anchor that comes out, with an id that is a safe integer and no
  -- negative time.
  pub decode_cursor-IsSigned :
      (token : List ℕ) (a : Anchor)
      → decode_cursor sign to_body of_body token ≡ ok a
      → IsSigned token a
  unfolding decode_cursor
  decode_cursor-IsSigned [] a h = cc
  decode_cursor-IsSigned (c ∷ cs) a h =
      let (body, (two, found)) = checked_parts-ok _ a (decoded-parts c cs a h) in
      let parts = two_parts-some (split_dots (c ∷ cs)) body (sign body) two in
      (
        body,
        (
          sym (parts_join-split_dots (c ∷ cs)) ∙ ap parts_join parts,
          payload-ok (of_body body) a found,
        ),
      )
