-- ===== src/Jobs.antt =====
-- backend/src/jobs: what the scheduler runs for every active business.
pub mod AutoClose
pub mod Scheduler
pub mod Drain
