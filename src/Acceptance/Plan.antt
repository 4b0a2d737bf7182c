-- ===== src/Acceptance/Plan.antt =====
-- scripts/acceptance-test/src/versioned_setup.rs: the versions of a run and the plan made of them.
pub mod Sources
pub mod Versions
pub mod Bounds
pub mod Targets
pub mod Parts
pub mod Prepare
mod Tests
