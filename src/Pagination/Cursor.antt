-- ===== src/Pagination/Cursor.antt =====
-- encodeCursor and decodeCursor of backend/src/utils/pagination.js. The HMAC in base64url, and JSON
-- in base64url both ways, are third-party code: arguments.
use renuzi_ops_platform.Prelude.{
  ℕ, ℤ, pos, leb_ℤ, Bool, true, false, ◌&&◌, Option, none, some, List, [], ◌∷◌, ◌++◌, ◌==◌, ltb,
  length, if◌then◌else◌,
}
use renuzi_ops_platform.Payload.{http, plain}
use renuzi_ops_platform.Exec.{Result, ok, err}
use renuzi_ops_platform.Processors.{same_text}

-- A property of a decoded payload: none, an integer, a number between an integer and the next one,
-- or no finite number.
pub data Value : Type 0 where
  absent : Value
  integer : ℤ → Value
  fraction : ℤ → Value
  other : Value

pub record Anchor : Type 0 where
  pub id : Value
  pub ts : Value

pub record Versioned : Type 0 where
  pub v : Value
  pub anchor : Anchor

-- What encodeCursor is handed: an id alone, or an anchor.
pub data CursorInput : Type 0 where
  bare : Value → CursorInput
  anchored : Anchor → CursorInput

-- Number.isSafeInteger(id) && id >= 0
abbrev is_safe_id : Value → Bool
is_safe_id (integer n) = leb_ℤ (pos 0) n && leb_ℤ n (pos 9007199254740991)
is_safe_id _ = false

abbrev is_valid_ts : Value → Bool
is_valid_ts absent = true
is_valid_ts (integer n) = leb_ℤ (pos 0) n
is_valid_ts (fraction n) = leb_ℤ (pos 0) n
is_valid_ts other = false

unfoldable pub is_valid_cursor_payload : Anchor → Bool
is_valid_cursor_payload a = is_safe_id a.id && is_valid_ts a.ts

abbrev pub anchor_of : CursorInput → Anchor
anchor_of (bare n) = record { id = n; ts = absent }
anchor_of (anchored a) = a

unfoldable pub to_cursor_payload : CursorInput → Result Versioned
to_cursor_payload input =
    if is_valid_cursor_payload (anchor_of input)
    then ok (record { v = integer (pos 1); anchor = anchor_of input })
    else err (plain "encodeCursor: payload must be { id, ts? } or a bare id number")

abbrev pub is_version_1 : Value → Bool
is_version_1 (integer (pos n)) = n == 1
is_version_1 _ = false

-- The parts, after one more character in front.
abbrev pub push : Bool → ℕ → List (List ℕ) → List (List ℕ)
push true c parts = [] ∷ parts
push false c [] = (c ∷ []) ∷ []
push false c (part ∷ parts) = (c ∷ part) ∷ parts

-- split('.')
unfoldable pub split_dots : List ℕ → List (List ℕ)
split_dots [] = [] ∷ []
split_dots (c ∷ cs) = push (c == b'.') c (split_dots cs)

abbrev pub invalid_cursor : {A : Type 0} → Result A
invalid_cursor = err (http 400 "Invalid pagination cursor")

-- A body and a signature, neither of them empty.
unfoldable pub two_parts : List (List ℕ) → Option (List ℕ × List ℕ)
two_parts ((b ∷ bs) ∷ (s ∷ ss) ∷ []) = some (b ∷ bs, s ∷ ss)
two_parts _ = none

abbrev pub max_cursor_chars : ℕ
max_cursor_chars = 1024

module _ (sign : List ℕ → List ℕ) (to_body : Versioned → List ℕ)
    (of_body : List ℕ → Option Versioned) where
  abbrev pub encoded : Result Versioned → Result (List ℕ)
  encoded (ok p) = ok (to_body p ++ (b'.' ∷ sign (to_body p)))
  encoded (err e) = err e

  unfoldable pub encode_cursor : CursorInput → Result (List ℕ)
  encode_cursor input = encoded (to_cursor_payload input)

  abbrev pub checked_payload : Option Versioned → Result Anchor
  checked_payload none = invalid_cursor
  checked_payload (some p) =
      if is_version_1 p.v && is_valid_cursor_payload p.anchor then ok p.anchor else invalid_cursor

  abbrev pub checked_parts : Option (List ℕ × List ℕ) → Result Anchor
  checked_parts none = invalid_cursor
  checked_parts (some (body, signature)) =
      if same_text signature (sign body) then checked_payload (of_body body) else invalid_cursor

  -- A token that is absent is the empty one.
  unfoldable pub decode_cursor : List ℕ → Result Anchor
  decode_cursor [] = invalid_cursor
  decode_cursor (c ∷ cs) =
      if ltb max_cursor_chars (length (c ∷ cs))
      then invalid_cursor
      else checked_parts (two_parts (split_dots (c ∷ cs)))
