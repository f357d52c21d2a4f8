-- ===== src/K8s.antt =====
-- pkg/k8s: the Kubernetes client.
pub mod Sanitize
pub mod Types
pub mod Objects
pub mod Custom
pub mod Pods
pub mod Validate
pub mod Cluster
