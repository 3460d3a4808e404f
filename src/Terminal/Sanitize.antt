-- ===== src/Terminal/Sanitize.antt =====
-- adapter/bubbletea/sanitize.go: the machine that takes terminal control sequences out of a text.
pub mod Machine
pub mod Clean
pub mod Line
pub mod Fuel
