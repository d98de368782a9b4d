-- ===== src/Journal.antt =====
-- tactus-runtime/src/journal.rs: the record of one run. It redacts what plugins report, numbers the
-- events, and publishes one summary of a consistent outcome.
pub mod Redaction
pub mod Summary
pub mod Writer
mod Examples
