-- ===== src/Engine.antt =====
-- internal/logstore/engine: the parts that keep their state in memory.
pub mod ColumnCache
pub mod Id
pub mod Query
pub mod Ring
mod Tests
