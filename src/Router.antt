-- ===== src/Router.antt =====
-- crates/refract-router: from channels to an order of attempts, the keys of a channel, and the
-- execution of a request.
pub mod Plan
pub mod Keys
pub mod Executor
pub mod Affinity
