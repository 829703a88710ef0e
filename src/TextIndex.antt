-- ===== src/TextIndex.antt =====
-- internal/logstore/index: the inverted index of a sealed segment, written once and searched.
pub mod Tokenizer
pub mod Builder
pub mod Reader
pub mod Cache
pub mod Exact
mod Tests
