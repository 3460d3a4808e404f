-- ===== src/Terminal/Table.antt =====
-- adapter/bubbletea/table_layout.go: how a table is laid out in the width and the height there is.
pub mod Widths
pub mod Window
pub mod Shrink
pub mod Plan
pub mod Modes
