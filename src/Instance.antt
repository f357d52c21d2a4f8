-- ===== src/Instance.antt =====
-- pkg/instance: instances, their parts, and their life in the cluster.
pub mod State
pub mod World
pub mod Access
pub mod Security
pub mod Monitoring
pub mod Network
pub mod Build
pub mod Storage
pub mod Sidecars
pub mod Resources
pub mod Execution
pub mod Naming
pub mod Operation
