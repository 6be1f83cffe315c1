-- ===== src/Bandwidth.antt =====
-- src/server/bandwidth.ts, src/server/bandwidth-service.ts and src/server/drift-service.ts: the
-- limits of a peer's bandwidth, and the queue that the router has for them.
pub mod Rates
pub mod Queues
pub mod Conflicts
pub mod Policy
pub mod Apply
pub mod Applied
pub mod Observe
pub mod Obstacles
pub mod Observed
