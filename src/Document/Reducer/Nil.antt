-- ===== src/Document/Reducer/Nil.antt =====
-- document/reducer.go: the nil `ExplicitProps` of the root, which `New` and `cloneExplicit` of
-- document/document.go leave there.
pub mod Nodes
pub mod Ops
pub mod Panic
