-- ===== src/Controller.antt =====
-- The controller's package, pkg/controller.
pub mod PortMapping
pub mod Queue
pub mod Handler
pub mod Worker
pub mod Shadow
mod Tests
