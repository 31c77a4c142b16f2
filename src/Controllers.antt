-- ===== src/Controllers.antt =====
-- The reconcilers of controllers/, a module for each.
pub mod Disk
pub mod Array
pub mod Pool
pub mod Share
pub mod Parity
pub mod Rebalance
pub mod Placement
pub mod Failure
pub mod Cache
pub mod Policy
pub mod V1
