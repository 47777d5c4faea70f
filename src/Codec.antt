-- ===== src/Codec.antt =====
-- The codecs (crates/refract-protocol).
pub mod Sse
pub mod Usage
pub mod Aggregate
pub mod Json
pub mod Messages
