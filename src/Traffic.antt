-- ===== src/Traffic.antt =====
-- src/server/traffic-accounting.ts: the accounting of the traffic of a router's peers, and the
-- enforcement of their limits.
pub mod Rows
pub mod Observe
pub mod Enforce
pub mod Recording
pub mod Enforcement
pub mod Polling
