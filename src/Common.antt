-- ===== src/Common.antt =====
-- What the daemon and the command line share, crates/common/src.
pub mod Devenv
pub mod Registry
pub mod Hosts
pub mod Ipc
pub mod Flags
pub mod Xdg
