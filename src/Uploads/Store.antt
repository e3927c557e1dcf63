-- ===== src/Uploads/Store.antt =====
-- backend/src/services/uploadService.js: storeUpload with its drivers. `files` is what lies under
-- the local root, keyed by the path below it; random keys and paths are built of no user input, so
-- that the driver's check of the root always passes and is left out.
use renuzi_ops_platform.Prelude.{
  where_rows, not, ℕ, ◌+◌, ◌*◌, String, Bool, true, false, ◌||◌, Option, none, some, List, [], ◌∷◌,
  ◌++◌, length, ltb, if◌then◌else◌,
}
use renuzi_ops_platform.DocNumbers.{codes, decimal}
use renuzi_ops_platform.Processors.{same_text}
use renuzi_ops_platform.Uploads.Sniff.{Mime, jpeg, png, webp, pdf, sniff_mime, scan_for_viruses}

-- UPLOAD_PURPOSES; `unknown` is any other string.
pub data Purpose : Type 0 where
  damage_photo receipt_photo driver_signature customer_signature general unknown : Purpose

pub data Driver : Type 0 where
  local azure_blob : Driver

-- env.uploads with the scanner behind virusScanHost.
pub record UploadEnv : Type 0 where
  pub driver : Driver
  pub max_bytes : ℕ
  pub allowed_mime : List Mime
  pub clamd : Option (List ℕ → Option (List ℕ))
  pub signed_url_ttl : ℕ

pub record StoredFile : Type 0 where
  pub path : List ℕ
  pub content : List ℕ

pub record Stored : Type 0 where
  pub storage_key : List ℕ
  pub expires_at : ℕ
  pub mime : Mime
  pub bytes : ℕ

pub data Answer : Type 0 where
  refused : ℕ → String → Answer
  stored : Stored → Answer

abbrev pub same_mime : Mime → Mime → Bool
same_mime jpeg jpeg = true
same_mime png png = true
same_mime webp webp = true
same_mime pdf pdf = true
same_mime _ _ = false

-- env.uploads.allowedMime.includes(mime)
abbrev pub allows : List Mime → Mime → Bool
allows [] m = false
allows (a ∷ allowed) m = same_mime a m || allows allowed m

abbrev pub ext_by_mime : Mime → List ℕ
ext_by_mime jpeg = codes "jpg"
ext_by_mime png = codes "png"
ext_by_mime webp = codes "webp"
ext_by_mime pdf = codes "pdf"

-- purpose.toLowerCase(); an unknown purpose has been refused.
abbrev pub purpose_dir : Purpose → List ℕ
purpose_dir Purpose.damage_photo = codes "damage_photo"
purpose_dir Purpose.receipt_photo = codes "receipt_photo"
purpose_dir Purpose.driver_signature = codes "driver_signature"
purpose_dir Purpose.customer_signature = codes "customer_signature"
purpose_dir Purpose.general = codes "general"
purpose_dir Purpose.unknown = []

-- <businessKey>/<purpose>/<uuid>.<ext>
abbrev pub storage_path : ℕ → Purpose → List ℕ → Mime → List ℕ
storage_path business_key purpose uuid m =
    decimal business_key
    ++ (b'/' ∷ (purpose_dir purpose ++ (b'/' ∷ (uuid ++ (b'.' ∷ ext_by_mime m)))))

-- localDriver.delete, which no route calls.
abbrev pub delete_file : List ℕ → List StoredFile → List StoredFile
delete_file path files = where_rows (λ (f : StoredFile). not (same_text f.path path)) files

-- writeFile: a file that is there under the path is overwritten.
abbrev pub put_file : List ℕ → List ℕ → List StoredFile → List StoredFile
put_file path content files = record { path = path; content = content } ∷ delete_file path files

abbrev pub no_azure : String
no_azure = "azure-blob driver requires the Azure Storage SDK deployment profile"

-- driver().put and driver().signedUrl, at the time `now`.
abbrev pub put_upload :
    Driver → ℕ → ℕ → List ℕ → Mime → List ℕ → List StoredFile → Answer × List StoredFile
put_upload azure_blob now ttl key m buffer files = (refused 501 no_azure, files)
put_upload local now ttl key m buffer files = (
  stored (record {
    storage_key = key;
    expires_at = now + ttl * 1000;
    mime = m;
    bytes = length buffer;
  }),
  put_file key buffer files,
)

-- Who uploads, for what, under which random name, and when.
pub record Upload : Type 0 where
  pub business_key : ℕ
  pub purpose : Purpose
  pub uuid : List ℕ
  pub now : ℕ

module _ (env : UploadEnv) (u : Upload) where
  abbrev pub scanned : Mime → List ℕ → Option Bool → List StoredFile → Answer × List StoredFile
  scanned m buffer none files =
      (refused 503 "Virus scanning is temporarily unavailable; upload rejected", files)
  scanned m buffer (some false) files = (refused 422 "File failed virus scanning", files)
  scanned m buffer (some true) files =
      put_upload env.driver u.now env.signed_url_ttl
        (storage_path u.business_key u.purpose u.uuid m) m buffer files

  abbrev pub sniffed : List ℕ → Option Mime → List StoredFile → Answer × List StoredFile
  sniffed buffer none files = (refused 415 "File content does not match any allowed type", files)
  sniffed buffer (some m) files =
      if allows env.allowed_mime m
      then scanned m buffer (scan_for_viruses env.clamd buffer) files
      else (refused 415 "Content type ${trueMime} is not allowed", files)

  abbrev pub checked_buffer : List ℕ → List StoredFile → Answer × List StoredFile
  checked_buffer [] files = (refused 400 "File is empty", files)
  checked_buffer (b ∷ buffer) files =
      if ltb env.max_bytes (length (b ∷ buffer))
      then (refused 413 "File exceeds the ${limit} MB limit", files)
      else sniffed (b ∷ buffer) (sniff_mime (b ∷ buffer)) files

  abbrev pub for_purpose : Purpose → List ℕ → List StoredFile → Answer × List StoredFile
  for_purpose Purpose.unknown buffer files = (refused 400 "purpose must be one of: …", files)
  for_purpose _ buffer files = checked_buffer buffer files

  -- A missing file is an empty buffer.
  unfoldable pub store_upload : List ℕ → List StoredFile → Answer × List StoredFile
  store_upload buffer files = for_purpose u.purpose buffer files
