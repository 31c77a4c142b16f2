-- ===== src/Storage.antt =====
-- The stand-alone packages of storage/.
pub mod Scheduler
pub mod Options
pub mod Process
