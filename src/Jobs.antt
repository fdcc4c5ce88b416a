-- ===== src/Jobs.antt =====
-- The job queue: internal/jobs.
pub mod State
pub mod Store
pub mod Backoff
pub mod Registry
pub mod Engine
