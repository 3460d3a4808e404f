-- ===== src/Runtime/Events.antt =====
-- runtime/events.go: the bounded broker of events for the agent. Each method holds the mutex for its whole
-- body, so a history is a sequence of calls.
pub mod Broker
pub mod History
pub mod Numbering
pub mod Reliable
