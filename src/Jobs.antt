-- ===== src/Jobs.antt =====
-- internal/jobs: the job queue in SQLite and its worker.
pub mod Queue
pub mod Worker
mod Tests
