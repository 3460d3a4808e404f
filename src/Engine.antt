-- ===== src/Engine.antt =====
-- engine/engine.go: the engine, which joins the document, the interaction state and the event broker. Each
-- method holds the mutex for its whole body, so methods are functions of the engine's state.
pub mod Core
pub mod Snapshot
pub mod Commits
pub mod Publication
pub mod Returns
