-- ===== src/Session.antt =====
-- session/session.go: the session with the agent, its negotiation and the sequence of mutations.
pub mod Core
pub mod Sequence
pub mod States
pub mod Negotiation
