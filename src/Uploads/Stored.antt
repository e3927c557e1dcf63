-- ===== src/Uploads/Stored.antt =====
-- What storeUpload of backend/src/services/uploadService.js lets onto the disk.
use renuzi_ops_platform.Prelude.{
  ℕ, ◌≤◌, ◌≡◌, refl, Bool, true, false, Option, none, some, List, [], ◌∷◌, ◌⊎◌, inl, inr, length,
  ltb, arith, if-holds,
}
use renuzi_ops_platform.Uploads.Sniff.{Mime, sniff_mime, scan_for_viruses}
use renuzi_ops_platform.Uploads.Store.{
  Purpose, Driver, local, azure_blob, UploadEnv, StoredFile, Answer, refused, stored, allows,
  storage_path, put_file, put_upload, Upload, scanned, sniffed, checked_buffer, for_purpose,
  store_upload,
}

-- What an upload of the content type m has passed.
pub record IsClean (env : UploadEnv) (buffer : List ℕ) (m : Mime) : Type 0 where
  pub filled : 1 ≤ length buffer
  pub small : length buffer ≤ env.max_bytes
  pub sniffed_type : sniff_mime buffer ≡ some m
  pub allowed : allows env.allowed_mime m ≡ true
  pub clean : scan_for_viruses env.clamd buffer ≡ some true

abbrev pub is_stored : Answer → Bool
is_stored (refused s m) = false
is_stored (stored s) = true

module _ (env : UploadEnv) (u : Upload) (files : List StoredFile) where
  -- A refusal that stores nothing, or one new file of content that is clean.
  abbrev pub IsSafe : List ℕ → Answer × List StoredFile → Type 0
  IsSafe buffer end =
      ((is_stored end.0 ≡ false) × (end.1 ≡ files))
      ⊎ ((m : Mime) × IsClean env buffer m
          × (is_stored end.0 ≡ true)
          × (end.1 ≡ put_file (storage_path u.business_key u.purpose u.uuid m) buffer files))

  put_upload-IsSafe :
      (d : Driver) (buffer : List ℕ) (m : Mime)
      → IsClean env buffer m
      → IsSafe buffer (
          put_upload d u.now env.signed_url_ttl
            (storage_path u.business_key u.purpose u.uuid m)
            m
            buffer
            files)
  put_upload-IsSafe local buffer m good = inr (m, good, refl, refl)
  put_upload-IsSafe azure_blob buffer m good = inl (refl, refl)

  scanned-IsSafe :
      (buffer : List ℕ) (m : Mime) (clean : Option Bool)
      → (clean ≡ some true → IsClean env buffer m)
      → IsSafe buffer (scanned env u m buffer clean files)
  scanned-IsSafe buffer m none good = inl (refl, refl)
  scanned-IsSafe buffer m (some false) good = inl (refl, refl)
  scanned-IsSafe buffer m (some true) good = put_upload-IsSafe env.driver buffer m (good refl)

  sniffed-IsSafe :
      (buffer : List ℕ) (o : Option Mime)
      → 1 ≤ length buffer
      → length buffer ≤ env.max_bytes
      → sniff_mime buffer ≡ o
      → IsSafe buffer (sniffed env u buffer o files)
  sniffed-IsSafe buffer none filled small h = inl (refl, refl)
  sniffed-IsSafe buffer (some m) filled small h =
      if-holds (IsSafe buffer) (allows env.allowed_mime m) _ _
        (λ allowed. scanned-IsSafe buffer m (scan_for_viruses env.clamd buffer) (λ clean. record {
          filled = filled;
          small = small;
          sniffed_type = h;
          allowed = allowed;
          clean = clean;
        }))
        (λ _. inl (refl, refl))

  checked_buffer-IsSafe : (buffer : List ℕ) → IsSafe buffer (checked_buffer env u buffer files)
  checked_buffer-IsSafe [] = inl (refl, refl)
  checked_buffer-IsSafe (b ∷ buffer) =
      if-holds (IsSafe (b ∷ buffer)) (ltb env.max_bytes (length (b ∷ buffer))) _ _
        (λ _. inl (refl, refl))
        (λ fits.
          sniffed-IsSafe (b ∷ buffer) (sniff_mime (b ∷ buffer)) (omega arith) (ground arith) refl)

  for_purpose-IsSafe :
      (p : Purpose) (buffer : List ℕ) → IsSafe buffer (for_purpose env u p buffer files)
  for_purpose-IsSafe Purpose.unknown buffer = inl (refl, refl)
  for_purpose-IsSafe Purpose.damage_photo buffer = checked_buffer-IsSafe buffer
  for_purpose-IsSafe Purpose.receipt_photo buffer = checked_buffer-IsSafe buffer
  for_purpose-IsSafe Purpose.driver_signature buffer = checked_buffer-IsSafe buffer
  for_purpose-IsSafe Purpose.customer_signature buffer = checked_buffer-IsSafe buffer
  for_purpose-IsSafe Purpose.general buffer = checked_buffer-IsSafe buffer

  -- An upload is either refused and stores nothing, or stores one new file of its content under its
  -- random path, whose content is not empty, has at most the configured size, sniffs as a type that
  -- is allowed, and passed the virus scan.
  pub store_upload-IsSafe : (buffer : List ℕ) → IsSafe buffer (store_upload env u buffer files)
  unfolding store_upload
  store_upload-IsSafe buffer = for_purpose-IsSafe u.purpose buffer
