-- ===== src/Traversal/Types.antt =====
-- The types of proj/subpjx/SyncTraversal/src/api.rs, and those private to its imp.rs.
use kitchensync.Base.{ℕ, Text, List, Bool, Option}
use kitchensync.Format.Types.{FormatRulesTimestamp}
use kitchensync.Transport.Types.{ConnectedPeerRoot, PeerDirectoryEntry, PeerTransportError}
use kitchensync.Snapshot.Types.{SnapshotDatabasePeerDatabase, SnapshotDatabaseRow}

pub data SyncTraversalPeerRole : Type 0 where
  normal canon subordinate : SyncTraversalPeerRole

pub record SyncTraversalPeer : Type 0 where
  pub peer_index : ℕ
  pub peer_url : Text
  pub role : SyncTraversalPeerRole
  pub had_snapshot_history : Bool
  pub root : ConnectedPeerRoot
  pub snapshot_database : SnapshotDatabasePeerDatabase

pub record SyncTraversalRequest : Type 0 where
  pub peers : List SyncTraversalPeer
  pub retries_list : ℕ
  pub excludes : List Text

pub data SyncTraversalDiagnosticLevel : Type 0 where
  error : SyncTraversalDiagnosticLevel

pub data SyncTraversalDiagnosticKind : Type 0 where
  directory_listing_failed : PeerTransportError → SyncTraversalDiagnosticKind

pub record SyncTraversalDiagnostic : Type 0 where
  pub level : SyncTraversalDiagnosticLevel
  pub peer_index : ℕ
  pub path : Option Text
  pub kind : SyncTraversalDiagnosticKind

pub record SyncTraversalResult : Type 0 where
  pub diagnostics : List SyncTraversalDiagnostic

pub record ActivePeer : Type 0 where
  pub peer : SyncTraversalPeer

-- The hash map of a listing, by name, in the order in which the names were listed.
pub record ListedDirectory : Type 0 where
  pub peer_index : ℕ
  pub entries : List (Text × PeerDirectoryEntry)

pub record EntryEvidence : Type 0 where
  pub peer : ActivePeer
  pub live : Option PeerDirectoryEntry
  pub row : Option SnapshotDatabaseRow

pub record FileVersion : Type 0 where
  pub peer : ActivePeer
  pub entry : PeerDirectoryEntry
  pub mod_timestamp : FormatRulesTimestamp

pub data Outcome : Type 0 where
  file : List FileVersion → Outcome
  directory : Outcome
  absence : Outcome
  skip_subtree : Outcome
