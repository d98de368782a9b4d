-- ===== src/Cli.antt =====
-- tactus-runtime/src/cli.rs: the commands' own logic.
pub mod Batch
