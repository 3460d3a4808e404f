-- ===== src/Document/Reducer.antt =====
-- document/reducer.go: the operations on a document, in the order of the file.
pub mod Upsert
pub mod Edit
pub mod Apply
pub mod Tables
pub mod Outcome
pub mod Commit
pub mod Commits
pub mod Reach
pub mod Nil
pub mod Returns
