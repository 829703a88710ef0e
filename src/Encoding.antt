-- ===== src/Encoding.antt =====
-- internal/logstore/encoding: the value framings and the column encodings of the log store.
pub mod Word
pub mod Words
pub mod Varint
pub mod Framing
pub mod Zstd
pub mod Columns
pub mod ZstdBlock
pub mod Delta
pub mod Dictionary
pub mod Sparse
mod Tests
