-- ===== src/Protocol/Props.antt =====
-- protocol/props.go: normalising and merging component properties, over the JSON decoders of `Json`.
pub mod Fields
pub mod Schema
pub mod Normalize
