-- ===== src/Watcher.antt =====
-- internal/watcher: the rules that raise alerts, and their evaluation.
pub mod Store
pub mod Metrics
pub mod CountQuery
pub mod Condition
pub mod Evaluator
pub mod KeyedMutex
mod Tests
