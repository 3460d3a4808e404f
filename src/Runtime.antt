-- ===== src/Runtime.antt =====
-- The package `runtime`: the event broker and the interaction state that goes with a document.
pub mod Events
pub mod State
pub mod Selection
pub mod Tree
pub mod Reconcile
