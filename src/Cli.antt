-- ===== src/Cli.antt =====
-- The command line, crates/cli/src.
pub mod Dedup
pub mod Logs
pub mod Commands
pub mod Refresh
pub mod Live
