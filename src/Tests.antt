-- ===== src/Tests.antt =====
-- Runs on concrete inputs, and each theorem that has hypotheses at an input that meets them.
mod Sample
mod Startup
mod Walk
mod Upkeep
mod Time
mod Identities
mod Decisions
mod Rows
mod Swap
mod Copies
mod Slots
mod Snapshots
