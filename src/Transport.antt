-- ===== src/Transport.antt =====
-- proj/subpjx/PeerTransportSurface: what the other parts ask of a connected peer, as an interface
-- with the laws that they rely on.
pub mod Types
pub mod Surface
pub mod Action
pub mod Keeps
pub mod Memory
