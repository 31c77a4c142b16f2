-- ===== src/Api.antt =====
-- The resources of api/v1alpha1, a module for each file of types, and the admission checks.
pub mod Meta
pub mod Disk
pub mod Array
pub mod Pool
pub mod Share
pub mod Parity
pub mod Placement
pub mod Rebalance
pub mod Failure
pub mod Cache
pub mod Webhook
pub mod V1
