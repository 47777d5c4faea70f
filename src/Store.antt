-- ===== src/Store.antt =====
-- The persistent state (crates/refract-store/src).
pub mod Health
pub mod Wallet
pub mod Verification
pub mod ApiKeys
