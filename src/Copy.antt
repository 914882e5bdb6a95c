-- ===== src/Copy.antt =====
-- The component CopyStaging: proj/subpjx/CopyStaging.
pub mod Types
pub mod Paths
pub mod Places
pub mod Swap
pub mod Attempt
pub mod Slots
pub mod Tries
pub mod Cleanup
pub mod Displacement
