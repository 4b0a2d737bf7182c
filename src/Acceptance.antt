-- ===== src/Acceptance.antt =====
-- scripts/acceptance-test: the harness that generates, replays and checks recorded rollup data.
pub mod Settings
pub mod Paths
pub mod Directories
pub mod StateDir
pub mod Plan
pub mod Resync
pub mod Consistency
pub mod Setup
pub mod Evm
pub mod Postgres
pub mod Shutdown
pub mod Session
pub mod RunTest
pub mod RunSetup
pub mod Soak
pub mod Process
pub mod Slots
mod Tests
