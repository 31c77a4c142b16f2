-- ===== src/Node.antt =====
-- The agent that runs on each storage node (node-agent/).
pub mod Host
pub mod Disk
pub mod Smart
pub mod Agent
pub mod Discovery
pub mod Operations
pub mod Loop
pub mod Starts
pub mod Keys
pub mod Protocol
pub mod Status
pub mod Sizes
pub mod Parity
pub mod Snapraid
pub mod Mount
