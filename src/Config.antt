-- ===== src/Config.antt =====
-- apps/api/src/config/configuration.service.ts: the stored settings and rules, and their caches.
pub mod Rows
pub mod Seeds
pub mod Store
pub mod Updates
pub mod Values
pub mod Unique
pub mod Invariant
pub mod Ordered
pub mod Toggle
pub mod Enforced
