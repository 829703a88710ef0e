-- ===== src/Ingest.antt =====
-- internal/ingest: the write queue in front of the log store.
pub mod Queue
