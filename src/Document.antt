-- ===== src/Document.antt =====
-- The package `document`: the tree of components, its invariants, and the reducer that applies an
-- operation to it.
pub mod Types
pub mod Children
pub mod Invariants
pub mod Tree
pub mod Reducer
