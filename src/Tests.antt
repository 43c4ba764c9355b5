-- ===== src/Tests.antt =====
-- Concrete runs, and each theorem applied where its hypotheses hold.
mod Starts
mod Pool
mod Projects
mod Proxy
mod Follow
mod Nix
mod Names
mod Messages
mod Logs
mod Signals
mod Commands
mod Live
mod Namespaces
mod Init
