-- ===== src/Snapshot.antt =====
-- proj/subpjx/SnapshotDatabase: a peer's snapshot rows, and the exchange of the snapshot file.
pub mod Types
pub mod Rows
pub mod Cascade
pub mod Swap
pub mod Prepare
