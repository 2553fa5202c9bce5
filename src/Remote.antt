-- ===== src/Remote.antt =====
-- core/crates/adbcontrol-core/src/remote: accounts and sessions of remote users.
pub mod Accounts
pub mod Storage
pub mod Auth
pub mod Authorize
pub mod Identity
pub mod Devices
pub mod Diagnostics
pub mod Forward
pub mod History
pub mod LocalAdmin
pub mod Service
mod Tests
mod ServiceTests
mod ForwardTests
