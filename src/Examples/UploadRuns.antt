-- ===== src/Examples/UploadRuns.antt =====
-- A photo that is uploaded, and its link.
use renuzi_ops_platform.Prelude.{ℕ, ◌+◌, ◌-◌, ◌≡◌, refl, some, List, [], ◌∷◌, arith, map}
use renuzi_ops_platform.DocNumbers.{codes, decimal, decimal_from}
use renuzi_ops_platform.Pagination.Cursor.{split_dots}
use renuzi_ops_platform.Pagination.Limit.{trim_start}
use renuzi_ops_platform.Uploads.Sniff.{png}
use renuzi_ops_platform.Uploads.Store.{Purpose, Driver, UploadEnv, Upload, put_file, store_upload}
use renuzi_ops_platform.Uploads.Stored.{IsSafe, store_upload-IsSafe}
use renuzi_ops_platform.Uploads.Token.{
  verify_signed_token, signed_url_token, parse_int, leading_digits, sent, get_content,
}
use renuzi_ops_platform.Uploads.Link.{
  IsGenuine, get_content-signed_url_token, verify_signed_token-IsGenuine,
}

abbrev settings : UploadEnv
settings = record {
  driver = Driver.local;
  max_bytes = 1000;
  allowed_mime = png ∷ [];
  clamd = some (λ buffer. some (codes "stream: OK"));
  signed_url_ttl = 900;
}

abbrev photo : List ℕ
photo = 137 ∷ 80 ∷ 78 ∷ 71 ∷ 13 ∷ []

abbrev upload : Upload
upload = record {
  business_key = 1;
  purpose = Purpose.damage_photo;
  uuid = codes "uuid-1";
  now = 1000;
}

store_upload-IsSafe_example :
    IsSafe settings upload [] photo (store_upload settings upload photo [])
store_upload-IsSafe_example = store_upload-IsSafe settings upload [] photo

-- A signature with no dot, and an encoding that shifts every character past the dot.
abbrev shift_mac : List ℕ → List ℕ
shift_mac text = map (λ c. c + 100) text

abbrev path : List ℕ
path = codes "1/general/uuid-1.png"

abbrev encode : List ℕ → List ℕ
encode text = map (λ c. c + 100) text

abbrev decode : List ℕ → List ℕ
decode text = map (λ c. c - 100) text

get_content-signed_url_token_example :
    get_content shift_mac Driver.local decode 5000
      (signed_url_token shift_mac encode 1000 900 path)
      (put_file path photo [])
    ≡ sent photo
unfolding decimal decimal_from
get_content-signed_url_token_example =
    get_content-signed_url_token shift_mac encode decode 5000 1000 900 b'1'
      (codes "/general/uuid-1.png") photo [] refl refl refl (omega arith)

abbrev token : List ℕ
token = codes "abc.77.m"

abbrev one_mac : List ℕ → List ℕ
one_mac text = codes "m"

accepted : verify_signed_token one_mac 5 token ≡ some (codes "abc")
unfolding verify_signed_token split_dots parse_int trim_start leading_digits
accepted = refl

verify_signed_token-IsGenuine_example : IsGenuine one_mac 5 token (codes "abc")
verify_signed_token-IsGenuine_example =
    verify_signed_token-IsGenuine one_mac 5 token (codes "abc") accepted
