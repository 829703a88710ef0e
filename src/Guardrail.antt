-- ===== src/Guardrail.antt =====
-- internal/guardrail: the check that a statement only reads.
pub mod Text
pub mod Unicode
pub mod Normalize
pub mod Search
pub mod ReadOnly
mod Tests
