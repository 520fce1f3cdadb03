-- ===== src/Bootstrap.antt =====
-- The bootstrap service: cmd/bootstrap-service.
pub mod Config
pub mod System
pub mod Works
pub mod Archive
pub mod Download
pub mod Disk
pub mod Runner
pub mod Shutdown
pub mod Adapters
pub mod Process
pub mod Protocol
mod Samples
mod Tests
mod DiskTests
mod ProcessTests
