-- ===== src/Jobs.antt =====
-- The background jobs of server/jobs_*.py.
pub mod Payload
pub mod Queue
pub mod Retry
pub mod Limit
pub mod Stored
pub mod Restart
pub mod Cancel
pub mod Bury
pub mod Progress
pub mod Idempotency
