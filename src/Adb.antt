-- ===== src/Adb.antt =====
-- core/crates/adbcontrol-core/src: the tools around the adb program.
pub mod Command
pub mod KeepAlive
pub mod Platform
pub mod Processes
pub mod Scrcpy
pub mod Wireless
mod Tests
mod ProcessTests
