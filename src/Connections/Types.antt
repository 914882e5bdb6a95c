-- ===== src/Connections/Types.antt =====
-- The types of proj/subpjx/PeerConnections/src/api.rs, and those private to its imp.rs.
use kitchensync.Base.{ℕ, Text, List, Bool}
use kitchensync.Transport.Types.{ConnectedPeerRoot}

pub record PeerConnectionsStartupRequest : Type 0 where
  pub dry_run : Bool
  pub timeout_conn_seconds : ℕ
  pub timeout_idle_seconds : ℕ
  pub peer_arguments : List Text

pub data PeerConnectionsPeerRole : Type 0 where
  normal canon subordinate : PeerConnectionsPeerRole

pub record PeerConnectionsSnapshotDatabase : Type 0 where
  pub path : Text

pub record PeerConnectionsPeer : Type 0 where
  pub peer_index : ℕ
  pub role : PeerConnectionsPeerRole
  pub had_snapshot_history : Bool
  pub winning_url : Text
  pub root : ConnectedPeerRoot
  pub snapshot_database : PeerConnectionsSnapshotDatabase

pub data PeerConnectionsDiagnosticLevel : Type 0 where
  error : PeerConnectionsDiagnosticLevel

pub data PeerConnectionsDiagnosticKind : Type 0 where
  peer_unreachable snapshot_startup_failed : PeerConnectionsDiagnosticKind

pub record PeerConnectionsDiagnostic : Type 0 where
  pub level : PeerConnectionsDiagnosticLevel
  pub peer_index : ℕ
  pub kind : PeerConnectionsDiagnosticKind

pub record PeerConnectionsStartup : Type 0 where
  pub peers : List PeerConnectionsPeer
  pub diagnostics : List PeerConnectionsDiagnostic

pub data PeerConnectionsStartupFailureReason : Type 0 where
  fewer_than_two_reachable_peers : PeerConnectionsStartupFailureReason
  canon_peer_unreachable : PeerConnectionsStartupFailureReason
  first_sync_needs_canon : PeerConnectionsStartupFailureReason
  no_contributing_peer_reachable : PeerConnectionsStartupFailureReason

pub record PeerConnectionsStartupFailure : Type 0 where
  pub reason : PeerConnectionsStartupFailureReason
  pub diagnostics : List PeerConnectionsDiagnostic

pub data PeerConnectionsStartupResult : Type 0 where
  ready : PeerConnectionsStartup → PeerConnectionsStartupResult
  failed : PeerConnectionsStartupFailure → PeerConnectionsStartupResult

pub data ParsedRole : Type 0 where
  normal_role canon_role subordinate_role : ParsedRole

pub record ParsedPeer : Type 0 where
  pub peer_index : ℕ
  pub role : ParsedRole
  pub candidates : List Text

pub record ConnectedPeer : Type 0 where
  pub peer_index : ℕ
  pub role : ParsedRole
  pub winning_url : Text
  pub peer : ConnectedPeerRoot

pub record PreparedPeer : Type 0 where
  pub peer_index : ℕ
  pub role : ParsedRole
  pub had_snapshot_history : Bool
  pub winning_url : Text
  pub peer : ConnectedPeerRoot
  pub snapshot_path : Text
