-- ===== src/Daemon/Clients.antt =====
-- daemon/server.go: the terminal clients of the daemon.
pub mod Interactions
pub mod Core
pub mod Holders
pub mod Turns
pub mod Owner
