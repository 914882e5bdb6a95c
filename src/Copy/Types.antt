-- ===== src/Copy/Types.antt =====
-- The types of proj/subpjx/CopyStaging/src/api.rs.
use kitchensync.Base.{ℕ, ℤ, Text, List, Option, Bool}
use kitchensync.Transport.Types.{ConnectedPeerRoot, PeerTransportError}

pub data CopyStagingRunMode : Type 0 where
  normal dry_run : CopyStagingRunMode

pub data CopyStagingVerbosity : Type 0 where
  error info debug trace : CopyStagingVerbosity

pub record CopyStagingRunOptions : Type 0 where
  pub mode : CopyStagingRunMode
  pub max_copies : ℕ
  pub retries_copy : ℕ
  pub keep_bak_days : ℕ
  pub keep_tmp_days : ℕ
  pub verbosity : CopyStagingVerbosity

pub record CopyStagingPeer : Type 0 where
  pub peer_index : ℕ
  pub peer_url : Text
  pub root : ConnectedPeerRoot

pub record CopyStagingCopyRequest : Type 0 where
  pub options : CopyStagingRunOptions
  pub source_peer : CopyStagingPeer
  pub destination_peer : CopyStagingPeer
  pub source_path : Text
  pub destination_path : Text
  pub relative_path : Text
  pub winning_mod_time : ℕ
  pub winning_byte_size : ℤ

pub record CopyStagingDirectoryRequest : Type 0 where
  pub options : CopyStagingRunOptions
  pub peer : CopyStagingPeer
  pub directory_relative_path : Option Text

pub record CopyStagingDisplacementRequest : Type 0 where
  pub options : CopyStagingRunOptions
  pub peer : CopyStagingPeer
  pub relative_path : Text
  pub is_directory : Bool

pub data CopyStagingCopyStatus : Type 0 where
  completed planned_dry_run failed : CopyStagingCopyStatus

pub data CopyStagingSwapRecoveryStatus : Type 0 where
  recovered skipped_dry_run failed : CopyStagingSwapRecoveryStatus

pub data CopyStagingDisplacementStatus : Type 0 where
  displaced planned_dry_run failed : CopyStagingDisplacementStatus

pub data CopyStagingCleanupStatus : Type 0 where
  completed skipped_dry_run failed : CopyStagingCleanupStatus

pub data CopyStagingFailurePhase : Type 0 where
  read_source write_swap_new move_existing_to_swap_old rename_final : CopyStagingFailurePhase
  set_mod_time archive_old cleanup : CopyStagingFailurePhase

pub data CopyStagingDiagnosticLevel : Type 0 where
  error : CopyStagingDiagnosticLevel

pub data CopyStagingDiagnosticKind : Type 0 where
  transfer_failed : CopyStagingFailurePhase → Option PeerTransportError → CopyStagingDiagnosticKind
  copy_tries_exhausted : CopyStagingDiagnosticKind
  swap_recovery_failed : Option PeerTransportError → CopyStagingDiagnosticKind
  displacement_failed : Option PeerTransportError → CopyStagingDiagnosticKind
  cleanup_failed : Option PeerTransportError → CopyStagingDiagnosticKind

pub record CopyStagingDiagnostic : Type 0 where
  pub level : CopyStagingDiagnosticLevel
  pub peer_index : ℕ
  pub peer_url : Text
  pub relative_path : Option Text
  pub kind : CopyStagingDiagnosticKind

pub record CopyStagingCopyResult : Type 0 where
  pub destination_peer_index : ℕ
  pub destination_peer_url : Text
  pub relative_path : Text
  pub status : CopyStagingCopyStatus
  pub attempts : ℕ
  pub output_lines : List Text
  pub diagnostics : List CopyStagingDiagnostic

pub record CopyStagingSwapRecoveryResult : Type 0 where
  pub peer_index : ℕ
  pub directory_relative_path : Option Text
  pub status : CopyStagingSwapRecoveryStatus
  pub output_lines : List Text
  pub diagnostics : List CopyStagingDiagnostic

pub record CopyStagingDisplacementResult : Type 0 where
  pub peer_index : ℕ
  pub peer_url : Text
  pub relative_path : Text
  pub status : CopyStagingDisplacementStatus
  pub output_lines : List Text
  pub diagnostics : List CopyStagingDiagnostic

pub record CopyStagingCleanupResult : Type 0 where
  pub peer_index : ℕ
  pub directory_relative_path : Option Text
  pub status : CopyStagingCleanupStatus
  pub output_lines : List Text
  pub diagnostics : List CopyStagingDiagnostic
