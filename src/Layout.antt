-- ===== src/Layout.antt =====
-- layout: the sizes of boxes and the widths of a row's children.
pub mod Box
pub mod Row
pub mod Bounds
