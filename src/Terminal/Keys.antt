-- ===== src/Terminal/Keys.antt =====
-- adapter/bubbletea/key_router.go: what the keys do to the focused component and to the focus.
pub mod Router
pub mod Input
pub mod Erase
pub mod Scroll
