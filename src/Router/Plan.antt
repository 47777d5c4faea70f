-- ===== src/Router/Plan.antt =====
-- crates/refract-router/src/plan.rs: candidates, routes and the planner.
-- A borrowed channel or endpoint is its value. The random numbers are a function `draw` from the
-- number of the draw and the exclusive bound, with the number of the next draw passed along.
mod Defs
mod Gather
mod Arrange
pub mod Collect
pub mod Pin
pub mod Diagnose
pub mod Arranged
pub mod Tiers
pub mod Survivors
unfoldable pub use Defs.*
unfoldable pub use Gather.*
unfoldable pub use Arrange.*
