-- ===== src/Daemon.antt =====
-- daemon: the part of the daemon that the agent talks to.
pub mod Agent
pub mod Exact
pub mod Lease
pub mod Publication
pub mod Clients
