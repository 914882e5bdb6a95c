-- ===== src/CommandLine.antt =====
-- The component CommandLine: proj/subpjx/CommandLine.
pub mod Types
pub mod Urls
pub mod Options
pub mod Parse
pub mod Screens
pub mod Alternatives
pub mod Limits
