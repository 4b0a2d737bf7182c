-- ===== src/Stf.antt =====
-- crates/stf: the transaction authenticator and the wrapper of the runtime.
pub mod Sdk
pub mod Authentication
mod Tests
