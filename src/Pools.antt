-- ===== src/Pools.antt =====
-- src/server/pool-service.ts: the pools of client addresses, their entries and their peers.
pub mod Rows
pub mod Choose
pub mod Manage
pub mod Invariant
pub mod Kept
pub mod Ranges
pub mod Free
pub mod Chosen
pub mod Sound
pub mod Steps
pub mod Networks
