-- ===== src/Uploads/Route.antt =====
-- The upload route of backend/src/routes/uploads.js behind the filter of
-- backend/src/middleware/upload.js; the answer of the filter is that of the error handler.
use renuzi_ops_platform.Prelude.{ℕ, Option, none, some, List, or_else, if◌then◌else◌}
use renuzi_ops_platform.Schema.{User}
use renuzi_ops_platform.Http.Message.{Response, reply}
use renuzi_ops_platform.Uploads.Sniff.{Mime}
use renuzi_ops_platform.Uploads.Store.{
  Purpose, general, UploadEnv, StoredFile, Answer, refused, stored, allows, Upload, store_upload,
}

abbrev pub answer_of : Answer → Response
answer_of (refused status message) = reply status message
answer_of (stored s) = reply 201 "File stored"

-- `none` is a purpose that the query does not name.
abbrev pub upload_of : Option Purpose → List ℕ → ℕ → User → Upload
upload_of purpose uuid now u = record {
  business_key = u.business_key;
  purpose = or_else purpose general;
  uuid = uuid;
  now = now;
}

module _ (env : UploadEnv) where
  unfoldable pub post_upload :
      Option Purpose → List ℕ → ℕ → User → List ℕ → List StoredFile → Response × List StoredFile
  post_upload purpose uuid now u buffer files =
      let (answer, files') = store_upload env (upload_of purpose uuid now u) buffer files in
      (answer_of answer, files')

  -- fileFilter: the content type that the request declares; `none` is one outside Mime.
  unfoldable pub file_filter :
      Option Mime → Response × List StoredFile → List StoredFile → Response × List StoredFile
  file_filter none end files = (reply 415 "Content type ${file.mimetype} is not allowed", files)
  file_filter (some m) end files =
      if allows env.allowed_mime m
      then end
      else (reply 415 "Content type ${file.mimetype} is not allowed", files)
