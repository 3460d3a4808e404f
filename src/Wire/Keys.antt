-- ===== src/Wire/Keys.antt =====
-- wire/json.go: `rejectDuplicateKeys`.
pub mod Scan
pub mod Fuel
pub mod Distinct
