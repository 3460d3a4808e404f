-- ===== src/Document/Tree.antt =====
-- What a document promises (document/invariants.go), said without the walk: the nodes form one finite tree
-- under `root`, and `Validate` accepts exactly such documents.
pub mod Shape
pub mod Walk
pub mod Sound
pub mod Complete
