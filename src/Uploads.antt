-- ===== src/Uploads.antt =====
-- backend/src/services/uploadService.js and the routes of backend/src/routes/uploads.js.
pub mod Sniff
pub mod Token
pub mod Store
pub mod Stored
pub mod Digits
pub mod Link
pub mod Route
