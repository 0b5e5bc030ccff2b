-- ===== src/Topology.antt =====
-- pkg/topology: the graph of services, pods, traffic targets and traffic splits.
pub mod Types
pub mod Keys
pub mod Resources
pub mod Specs
pub mod Incoming
pub mod Builder
mod Tests
unfoldable pub use Types.*
