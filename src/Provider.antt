-- ===== src/Provider.antt =====
-- pkg/provider: the dynamic configuration of the proxies.
pub mod Dynamic
pub mod Keys
pub mod Rule
pub mod Servers
pub mod Services
pub mod Targets
pub mod Splits
pub mod Build
mod Tests
