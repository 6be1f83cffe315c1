-- ===== src/Peers.antt =====
-- src/server/peer-service.ts and src/server/operation-reconciler.ts: the life of a peer, in the
-- database and on its router.
pub mod World
pub mod Handlers
pub mod Logic
pub mod Left
pub mod Archived
pub mod Deleted
pub mod Reconcile
pub mod Reconciled
pub mod Enabled
pub mod Succeeds
pub mod Expiry
pub mod Expired
pub mod Unexpired
pub mod Limits
pub mod Resets
pub mod Configured
pub mod Reenabled
pub mod WasReset
pub mod Input
pub mod Undo
pub mod Create
pub mod Staged
pub mod Undone
pub mod Created
pub mod Config
pub mod Keys
pub mod Rotated
