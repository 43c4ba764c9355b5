-- ===== src/Daemon.antt =====
-- The daemon, crates/daemon/src.
pub mod Ports
pub mod Routes
pub mod Caddy
pub mod State
pub mod Signals
pub mod Netns
pub mod Binding
pub mod Handler
pub mod Hosts
pub mod Requests
pub mod Commands
