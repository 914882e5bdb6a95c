-- ===== src/Traversal.antt =====
-- proj/subpjx/SyncTraversal: the combined walk of the peers' trees.
pub mod Types
pub mod Decide
pub mod Services
pub mod Listing
pub mod Apply
pub mod Walk
