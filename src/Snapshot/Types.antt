-- ===== src/Snapshot/Types.antt =====
-- The types of proj/subpjx/SnapshotDatabase/src/api.rs.
use kitchensync.Base.{ℕ, ℤ, Text, Bool, Option}
use kitchensync.Transport.Types.{ConnectedPeerRoot}

pub data SnapshotDatabaseRunMode : Type 0 where
  normal dry_run : SnapshotDatabaseRunMode

pub record SnapshotDatabasePrepareRequest : Type 0 where
  pub peer_index : ℕ
  pub peer : ConnectedPeerRoot
  pub local_snapshot_path : Text
  pub mode : SnapshotDatabaseRunMode

pub record SnapshotDatabasePreparedPeer : Type 0 where
  pub peer_index : ℕ
  pub local_snapshot_path : Text
  pub had_snapshot_history : Bool

pub record SnapshotDatabasePeerDatabase : Type 0 where
  pub peer_index : ℕ
  pub local_snapshot_path : Text

pub record SnapshotDatabaseEntryIdentity : Type 0 where
  pub id : Text
  pub parent_id : Text
  pub basename : Text

pub record SnapshotDatabaseRow : Type 0 where
  pub id : Text
  pub parent_id : Option Text
  pub basename : Text
  pub mod_time : Text
  pub byte_size : ℤ
  pub last_seen : Option Text
  pub deleted_time : Option Text

pub record SnapshotDatabaseCleanupResult : Type 0 where
  pub removed_tombstone_rows : ℕ
  pub removed_stale_rows : ℕ

pub data SnapshotDatabaseDiagnosticKind : Type 0 where
  snapshot_startup_failed : SnapshotDatabaseDiagnosticKind
  snapshot_upload_failed_before_swap_old : SnapshotDatabaseDiagnosticKind
  snapshot_upload_failed_after_swap_old : SnapshotDatabaseDiagnosticKind

pub data SnapshotDatabaseDiagnosticLevel : Type 0 where
  error : SnapshotDatabaseDiagnosticLevel

pub record SnapshotDatabaseDiagnostic : Type 0 where
  pub level : SnapshotDatabaseDiagnosticLevel
  pub peer_index : ℕ
  pub kind : SnapshotDatabaseDiagnosticKind

pub data SnapshotDatabasePrepareResult : Type 0 where
  prepared : SnapshotDatabasePreparedPeer → SnapshotDatabasePrepareResult
  excluded : SnapshotDatabaseDiagnostic → SnapshotDatabasePrepareResult

pub record SnapshotDatabaseUploadRequest : Type 0 where
  pub peer_index : ℕ
  pub peer : ConnectedPeerRoot
  pub local_snapshot_path : Text

pub data SnapshotDatabaseUploadResult : Type 0 where
  uploaded : SnapshotDatabaseUploadResult
  failed : SnapshotDatabaseDiagnostic → SnapshotDatabaseUploadResult

pub data SnapshotDatabaseErrorKind : Type 0 where
  local_database_error local_file_error peer_transport_error : SnapshotDatabaseErrorKind

pub record SnapshotDatabaseError : Type 0 where
  pub kind : SnapshotDatabaseErrorKind
