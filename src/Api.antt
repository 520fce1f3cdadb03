-- ===== src/Api.antt =====
-- The custom resources: api/v1alpha1.
pub mod Meta
pub mod Conditions
pub mod Cluster
pub mod Template
pub mod Memory
mod MemoryTests
pub mod Claims
pub mod Scheme
