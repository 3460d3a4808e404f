-- ===== src/Wire.antt =====
-- wire and ipc/codec.go: how a stream of bytes is cut into records, and what a record must be to be decoded.
pub mod Slices
pub mod Held
pub mod Lines
pub mod Keys
pub mod Decode
pub mod Sound
