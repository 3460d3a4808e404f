-- ===== src/Ipc.antt =====
-- ipc: the records between the daemon and its terminal clients.
pub mod Messages
pub mod Budget
