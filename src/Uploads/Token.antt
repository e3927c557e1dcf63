-- ===== src/Uploads/Token.antt =====
-- backend/src/services/uploadService.js: signedToken and verifySignedToken, and the retrieval route
-- of backend/src/routes/uploads.js. `mac` is the HMAC-SHA256 in base64url under the secret, and
-- `encode`, `decode` are base64url of a path both ways.
use renuzi_ops_platform.Prelude.{
  ℕ, ◌+◌, ◌-◌, ◌*◌, ℤ, pos, negsuc, ◌-ℤ◌, ltb_ℤ, Bool, ◌&&◌, Option, none, some, List, [], ◌∷◌,
  ◌++◌, leb, ◌==◌, if◌then◌else◌, first_row, String,
}
use renuzi_ops_platform.DocNumbers.{decimal}
use renuzi_ops_platform.Processors.{same_text}
use renuzi_ops_platform.Pagination.Limit.{trim_start}
use renuzi_ops_platform.Pagination.Cursor.{split_dots}
use renuzi_ops_platform.Uploads.Store.{Driver, local, azure_blob, StoredFile}

-- `${key}.${expiresAtMs}`
abbrev pub token_payload : List ℕ → ℕ → List ℕ
token_payload key expires_at = key ++ (b'.' ∷ decimal expires_at)

abbrev pub is_digit : ℕ → Bool
is_digit c = leb b'0' c && leb c b'9'

-- The digits in front, after a number that has been read.
unfoldable pub leading_digits : ℕ → List ℕ → ℕ
leading_digits n [] = n
leading_digits n (c ∷ cs) =
    let longer = leading_digits (n * 10 + (c - b'0')) cs in if is_digit c then longer else n

-- `none` is NaN.
abbrev pub leading_number : List ℕ → Option ℕ
leading_number [] = none
leading_number (c ∷ cs) = if is_digit c then some (leading_digits 0 (c ∷ cs)) else none

abbrev pub negated : Option ℕ → Option ℤ
negated none = none
negated (some n) = some (pos 0 -ℤ pos n)

abbrev pub plain_number : Option ℕ → Option ℤ
plain_number none = none
plain_number (some n) = some (pos n)

abbrev pub parse_signed : List ℕ → Option ℤ
parse_signed [] = none
parse_signed (c ∷ cs) =
    if c == b'-'
    then negated (leading_number cs)
    else if c == b'+'
    then plain_number (leading_number cs)
    else plain_number (leading_number (c ∷ cs))

-- parseInt(text, 10); a number of more than 53 bits is kept exactly, which parseInt rounds.
unfoldable pub parse_int : List ℕ → Option ℤ
parse_int text = parse_signed (trim_start text)

module _ (mac : List ℕ → List ℕ) where
  unfoldable pub signed_token : List ℕ → ℕ → List ℕ
  signed_token key expires_at =
      token_payload key expires_at ++ (b'.' ∷ mac (token_payload key expires_at))

  -- A time before `now` is refused, whose sign then does not matter.
  abbrev pub checked_expiry : ℕ → List ℕ → List ℕ → Option ℤ → Option (List ℕ)
  checked_expiry now key given none = none
  checked_expiry now key given (some (negsuc n)) = none
  checked_expiry now key given (some (pos expires_at)) =
      if ltb_ℤ (pos expires_at) (pos now)
      then none
      else if same_text given (mac (token_payload key expires_at))
      then some key
      else none

  abbrev pub checked_token : ℕ → List (List ℕ) → Option (List ℕ)
  checked_token now (key ∷ expires_at ∷ given ∷ []) =
      checked_expiry now key given (parse_int expires_at)
  checked_token now _ = none

  unfoldable pub verify_signed_token : ℕ → List ℕ → Option (List ℕ)
  verify_signed_token now token = checked_token now (split_dots token)

  -- localDriver.signedUrl's token of a path.
  unfoldable pub signed_url_token : (List ℕ → List ℕ) → ℕ → ℕ → List ℕ → List ℕ
  signed_url_token encode now ttl path = signed_token (encode path) (now + ttl * 1000)

  -- An empty key is falsy.
  abbrev pub decoded : (List ℕ → List ℕ) → Option (List ℕ) → Option (List ℕ)
  decoded decode none = none
  decoded decode (some []) = none
  decoded decode (some (c ∷ key)) = some (decode (c ∷ key))

  unfoldable pub resolve_token : Driver → (List ℕ → List ℕ) → ℕ → List ℕ → Option (List ℕ)
  resolve_token azure_blob decode now token = none
  resolve_token local decode now token = decoded decode (verify_signed_token now token)

pub data Content : Type 0 where
  failed : ℕ → String → Content
  sent : List ℕ → Content

-- readUpload: whatever goes wrong is a 404.
abbrev pub read_upload : Option StoredFile → Content
read_upload none = failed 404 "File not found"
read_upload (some f) = sent f.content

-- An empty path is falsy.
abbrev pub content_of : Option (List ℕ) → List StoredFile → Content
content_of none files = failed 404 "Link expired or invalid"
content_of (some []) files = failed 404 "Link expired or invalid"
content_of (some (c ∷ path)) files =
    read_upload (first_row (λ (f : StoredFile). same_text f.path (c ∷ path)) files)

unfoldable pub get_content :
    (List ℕ → List ℕ) → Driver → (List ℕ → List ℕ) → ℕ → List ℕ → List StoredFile → Content
get_content mac driver decode now token files =
    content_of (resolve_token mac driver decode now token) files
