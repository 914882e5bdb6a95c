-- ===== src/Format.antt =====
-- proj/subpjx/FormatRules: timestamps, relative paths, metadata paths and peer identities.
pub mod Types
pub mod Time
pub mod Paths
pub mod Identity
