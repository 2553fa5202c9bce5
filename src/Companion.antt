-- ===== src/Companion.antt =====
-- core/crates/adbcontrol-core/src/companion: what Core keeps of the devices that run the app.
pub mod Capability
pub mod Protocol
pub mod Ingress
pub mod Live
pub mod MediaStore
pub mod Registry
pub mod Session
pub mod TrustedIngress
pub mod Router
mod Tests
mod RouterTests
mod MediaTests
