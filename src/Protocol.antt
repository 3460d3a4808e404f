-- ===== src/Protocol.antt =====
-- The package `protocol`: its types, limits, the validation of operations and of the handshake, and the
-- normalisation of component properties.
pub mod Types
pub mod Limits
pub mod Json
pub mod Props
pub mod Validate
pub mod Handshake
