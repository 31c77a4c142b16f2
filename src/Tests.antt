-- ===== src/Tests.antt =====
-- The theorems at concrete inputs: an API that answers the same at any time, a willing agent, a few
-- disks and numbers in thousandths.
mod Samples
mod Hosts
mod Sorting
mod Disks
mod Services
mod Scheduling
mod Protocol
mod Nodes
mod Processes
