-- ===== src/Core.antt =====
-- crates/refract-core: protocols, errors, channels and the routing policy.
pub mod Protocol
pub mod Error
pub mod Routing
pub mod Address
pub mod Channel
pub mod Affinity
