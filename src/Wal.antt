-- ===== src/Wal.antt =====
-- internal/logstore/wal: the binary write-ahead log.
pub mod Entry
pub mod Flags
pub mod Field
pub mod Group
pub mod Level
pub mod Record
pub mod Scanner
mod Tests
