-- ===== src/Connections.antt =====
-- The component PeerConnections: proj/subpjx/PeerConnections.
pub mod Types
pub mod Arguments
pub mod Connect
pub mod Start
pub mod Ready
pub mod Candidates
