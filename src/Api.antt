-- ===== src/Api.antt =====
-- The request side of the gateway (crates/refract-api/src).
pub mod Rate
