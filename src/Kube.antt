-- ===== src/Kube.antt =====
-- The Kubernetes side: the API's types and pkg/k8s.
pub mod Types
pub mod Smi
pub mod Filter
pub mod Versions
mod Tests
unfoldable pub use Types.*
