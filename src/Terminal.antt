-- ===== src/Terminal.antt =====
-- adapter/bubbletea: what the terminal adapter decides before it renders.
pub mod Utf8
pub mod Sanitize
pub mod Table
pub mod Keys
