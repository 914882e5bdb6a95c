-- ===== src/Traversal/Services.antt =====
-- What proj/subpjx/SyncTraversal/src/imp.rs calls of the other components, over a state of the
-- machine and the peers. Of a result only the part that the traversal looks at is given.
use kitchensync.Base.{ℤ, Text, Bool, Option, List, Result}
use kitchensync.Format.Types.{
  FormatRulesTimestamp, FormatRulesSnapshotPathIds, FormatRulesValidationError,
}
use kitchensync.Format.Time.{Chrono}
use kitchensync.Transport.Types.{ConnectedPeerRoot, PeerDirectoryEntry, PeerTransportError}
use kitchensync.Snapshot.Types.{
  SnapshotDatabasePeerDatabase, SnapshotDatabaseEntryIdentity, SnapshotDatabaseRow,
  SnapshotDatabaseError,
}
use kitchensync.Copy.Types.{
  CopyStagingCopyRequest, CopyStagingDirectoryRequest, CopyStagingDisplacementRequest,
  CopyStagingCopyStatus, CopyStagingSwapRecoveryStatus, CopyStagingDisplacementStatus,
}

pub record Services : Type 1 where
  pub State : Type 0
  pub chrono : Chrono
  -- `str::to_lowercase`
  pub to_lowercase : Text → Text
  pub snapshot_path_ids : Text → Result FormatRulesSnapshotPathIds FormatRulesValidationError
  pub current_timestamp : State → FormatRulesTimestamp × State
  pub list_dir :
      ConnectedPeerRoot → Text → State → Result (List PeerDirectoryEntry) PeerTransportError × State
  pub create_dir : ConnectedPeerRoot → Text → State → Result (Unit {0}) PeerTransportError × State
  pub recover_user_swap :
      CopyStagingDirectoryRequest → State → CopyStagingSwapRecoveryStatus × State
  pub copy_file : CopyStagingCopyRequest → State → CopyStagingCopyStatus × State
  pub displace_to_bak :
      CopyStagingDisplacementRequest → State → CopyStagingDisplacementStatus × State
  pub cleanup_metadata : CopyStagingDirectoryRequest → State → State
  pub read_snapshot_row :
      SnapshotDatabasePeerDatabase
      → Text
      → State
      → Result (Option SnapshotDatabaseRow) SnapshotDatabaseError × State
  -- The row operations, with the fields of their requests; their answers are dropped.
  pub record_confirmed_file :
      SnapshotDatabasePeerDatabase → SnapshotDatabaseEntryIdentity → Text → ℤ → Text → State → State
  pub record_intended_file_copy :
      SnapshotDatabasePeerDatabase → SnapshotDatabaseEntryIdentity → Text → ℤ → State → State
  pub record_completed_file_copy : SnapshotDatabasePeerDatabase → Text → Text → State → State
  pub record_listed_directory :
      SnapshotDatabasePeerDatabase → SnapshotDatabaseEntryIdentity → Text → Text → State → State
  pub record_created_directory :
      SnapshotDatabasePeerDatabase → SnapshotDatabaseEntryIdentity → Text → Text → State → State
  pub record_confirmed_absence : SnapshotDatabasePeerDatabase → Text → State → State
  pub record_successful_displacement : SnapshotDatabasePeerDatabase → Text → Bool → State → State
