-- ===== src/Controller.antt =====
-- The reconcilers: internal/controller.
pub mod Kube
pub mod Cluster
pub mod Template
pub mod Claims
pub mod Setup
pub mod Store
pub mod System
pub mod Interleaved
pub mod Readiness
mod Samples
mod SampleStore
mod SystemTests
mod InterleavedTests
mod Tests
mod TemplateTests
mod RequeueTests
