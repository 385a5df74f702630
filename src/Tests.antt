-- ===== src/Tests.antt =====
-- Concrete runs: each general theorem is applied to one.
pub mod Fleets
pub mod Workers
pub mod Sizes
pub mod Plugins
pub mod Limits
pub mod Processes
