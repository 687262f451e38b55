-- ===== src/Mempool.antt =====
-- packages/bundler/src/modules/MempoolManager.ts and MempoolEntry.ts, by parts.
pub mod Defs
pub mod Counts
pub mod Lookup
pub mod Add
pub mod Kept
pub mod Admission
pub mod Banned
pub mod Sorted
pub mod Seen
pub mod Reached
