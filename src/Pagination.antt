-- ===== src/Pagination.antt =====
-- backend/src/utils/pagination.js: page sizes, signed cursors and the list envelope.
pub mod Limit
pub mod Cursor
pub mod Codec
pub mod RoundTrip
pub mod Page
