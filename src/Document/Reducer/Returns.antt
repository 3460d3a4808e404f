-- ===== src/Document/Reducer/Returns.antt =====
-- document/reducer.go: on a tree within the limits no loop of the reducer runs on.
pub mod Climb
pub mod Grown
pub mod Sweeps
pub mod Total
