-- ===== src/Runtime/Selection.antt =====
-- runtime/table_selection.go: the selected row of each table.
pub mod Rows
pub mod Bounds
