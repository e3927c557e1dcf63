-- ===== src/Examples/PageRuns.antt =====
-- Pages, cursors and a resolution on small inputs. The signature and the encoding of the cursors
-- stand in for HMAC and base64url.
use renuzi_ops_platform.Prelude.{ℕ, ◌≡◌, refl, pos, true, Option, none, some, List, [], ◌∷◌, arith}
use renuzi_ops_platform.Constants.{client_wins}
use renuzi_ops_platform.Exec.{ok}
use renuzi_ops_platform.Exec.Refused.{IsRefused}
use renuzi_ops_platform.DocNumbers.{codes}
use renuzi_ops_platform.Conflicts.{resolve_conflict}
use renuzi_ops_platform.Conflicts.Outcome.{resolve_conflict-IsRefused}
use renuzi_ops_platform.Pagination.Limit.{
  InRange, RawLimit, pagination_defaults, validate_limit, validate_limit-InRange,
}
use renuzi_ops_platform.Pagination.Cursor.{
  Value, Anchor, Versioned, CursorInput, decode_cursor, encode_cursor, split_dots, two_parts,
  to_cursor_payload, is_valid_cursor_payload,
}
use renuzi_ops_platform.Pagination.Codec.{IsSigned, decode_cursor-IsSigned}
use renuzi_ops_platform.Pagination.RoundTrip.{decode_cursor-encode_cursor}
use renuzi_ops_platform.Pagination.Page.{
  Page, PageArgs, IsPage, build_paginated_response, build_paginated_response-IsPage, page_rows,
  has_more_of, next_cursor_value, total_count,
}
use renuzi_ops_platform.Fixtures.{ann}

resolve_conflict-IsRefused_example : IsRefused (resolve_conflict ann 9 client_wins none)
resolve_conflict-IsRefused_example = resolve_conflict-IsRefused ann 9 client_wins none

validate_limit-InRange_example :
    InRange pagination_defaults (validate_limit pagination_defaults (RawLimit.text (codes " 250 ")))
validate_limit-InRange_example =
    validate_limit-InRange pagination_defaults (RawLimit.text (codes " 250 ")) (omega arith)
      (omega arith)

abbrev seven : Anchor
seven = record { id = Value.integer (pos 7); ts = Value.absent }

abbrev sign : List ℕ → List ℕ
sign body = b'S' ∷ body

abbrev to_body : Versioned → List ℕ
to_body p = codes "7"

abbrev of_body : List ℕ → Option Versioned
of_body [] = none
of_body (c ∷ cs) = some (record { v = Value.integer (pos 1); anchor = seven })

abbrev token : List ℕ
token = codes "7.S7"

accepted : decode_cursor sign to_body of_body token ≡ ok seven
unfolding decode_cursor split_dots two_parts is_valid_cursor_payload
accepted = refl

decode_cursor-IsSigned_example : IsSigned sign to_body of_body token seven
decode_cursor-IsSigned_example = decode_cursor-IsSigned sign to_body of_body token seven accepted

made : encode_cursor sign to_body of_body (CursorInput.anchored seven) ≡ ok token
unfolding encode_cursor to_cursor_payload is_valid_cursor_payload
made = refl

decode_cursor-encode_cursor_example : decode_cursor sign to_body of_body token ≡ ok seven
decode_cursor-encode_cursor_example =
    decode_cursor-encode_cursor sign to_body of_body seven token made refl refl refl (omega arith)

-- Three rows for a page of two.
abbrev three : PageArgs ℕ
three = record {
  data_rows = 4 ∷ 5 ∷ 6 ∷ [];
  limit = 2;
  given_has_more = none;
  cursor_of = some (λ row. ok (row ∷ []));
  given_cursor = none;
  given_total = none;
}

abbrev first_page : Page ℕ
first_page = record {
  rows = 4 ∷ 5 ∷ [];
  count = 2;
  has_more = true;
  next_cursor = some (5 ∷ []);
  total = none;
}

three_pages : build_paginated_response three ≡ ok first_page
unfolding build_paginated_response page_rows has_more_of next_cursor_value total_count
three_pages = refl

build_paginated_response-IsPage_example : IsPage 2 (4 ∷ 5 ∷ 6 ∷ []) first_page
build_paginated_response-IsPage_example =
    build_paginated_response-IsPage three 1 first_page refl refl three_pages
