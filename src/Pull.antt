-- ===== src/Pull.antt =====
-- backend/src/services/syncPullService.js: what a device downloads.
pub mod Snapshot
pub mod Changes
pub mod Resume
pub mod Retention
