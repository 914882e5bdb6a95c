-- ===== src/Copy/Swap.antt =====
-- The recovery of a SWAP directory of proj/subpjx/CopyStaging/src/imp.rs. The operations act on the
-- peers through the transport surface, and take their timestamps from `current_timestamp`, the
-- operation of the component FormatRules, on the same state.
pub mod Archive
pub mod Recovery
use kitchensync.Base.{
  ℕ, codes, Text, Bool, true, false, Option, none, some, List, [], ◌∷◌, ◌++◌, Result, ok, err,
  is_ok, map_err, if◌then◌else◌,
}
use kitchensync.Format.Types.{
  FormatRulesTimestamp, FormatRulesUserSwapPaths, FormatRulesValidationError,
}
use kitchensync.Format.Paths.{user_swap_paths, bak_directory_path}
use kitchensync.Transport.Types.{
  PeerDirectoryEntry, PeerMetadata, PeerTransportError, not_found, io_error,
}
use kitchensync.Transport.Surface.{PeerTransportSurface}
use kitchensync.Transport.Action.{Action, pure, fail, ◌>>=◌, ◌>>◌}
use kitchensync.Copy.Types.{
  CopyStagingRunMode, normal, dry_run, CopyStagingPeer, CopyStagingDirectoryRequest,
  CopyStagingSwapRecoveryResult, CopyStagingSwapRecoveryStatus, recovered, skipped_dry_run, failed,
  CopyStagingDiagnosticLevel, error, CopyStagingDiagnosticKind, swap_recovery_failed,
}
use kitchensync.Copy.Paths.{join_parent_basename, metadata_child_path, percent_decode_segment}

-- `map_err(|_| PeerTransportError::IoError)`
abbrev pub or_io_error :
    {A : Type 0} → Result A FormatRulesValidationError → Result A PeerTransportError
or_io_error r = map_err (λ _. io_error) r

abbrev pub found : Result PeerMetadata PeerTransportError → Result Bool PeerTransportError
found (ok _) = ok true
found (err not_found) = ok false
found (err e) = err e

-- `Ok(()) | Err(NotFound) => Ok(())`
abbrev pub gone_is_ok : Result (Unit {0}) PeerTransportError → Result (Unit {0}) PeerTransportError
gone_is_ok (ok _) = ok tt
gone_is_ok (err not_found) = ok tt
gone_is_ok (err e) = err e

abbrev pub is_dry_run : CopyStagingRunMode → Bool
is_dry_run dry_run = true
is_dry_run normal = false

module _ (T : PeerTransportSurface)
    (current_timestamp : T.State → FormatRulesTimestamp × T.State) where
  abbrev pub Step : Type 0 → Type 0
  Step A = Action T.State PeerTransportError A

  -- A result that is already there, as a step
  abbrev pub lift : {A : Type 0} → Result A PeerTransportError → Step A
  lift r s = (r, s)

  abbrev pub timestamp : Step FormatRulesTimestamp
  timestamp s = (ok (current_timestamp s).0, (current_timestamp s).1)

  unfoldable pub path_exists : CopyStagingPeer → Text → Step Bool
  path_exists peer path s = (found (T.stat peer.root path s).0, (T.stat peer.root path s).1)

  unfoldable pub archive_swap_old : CopyStagingPeer → Option Text → Text → Text → Step (Unit {0})
  archive_swap_old peer parent basename old_path = do
    now ← timestamp
    bak_dir ← lift (or_io_error (bak_directory_path parent now))
    T.create_dir peer.root bak_dir
    T.rename peer.root old_path (bak_dir ++ basename)

  -- The `match` on which of old, new and live exist
  unfoldable pub recover_files :
      CopyStagingPeer
      → Option Text
      → Text
      → FormatRulesUserSwapPaths
      → Bool
      → Bool
      → Bool
      → Step (Unit {0})
  unfolding archive_swap_old
  recover_files peer parent basename swap true true true = do
    T.delete_file peer.root swap.new_path
    archive_swap_old peer parent basename swap.old_path
  recover_files peer parent basename swap true false true =
      archive_swap_old peer parent basename swap.old_path
  recover_files peer parent basename swap true true false = do
    T.rename peer.root swap.new_path (join_parent_basename parent basename)
    archive_swap_old peer parent basename swap.old_path
  recover_files peer parent basename swap true false false =
      T.rename peer.root swap.old_path (join_parent_basename parent basename)
  recover_files peer parent basename swap false true true = T.delete_file peer.root swap.new_path
  recover_files peer parent basename swap false true false =
      T.rename peer.root swap.new_path (join_parent_basename parent basename)
  recover_files peer parent basename swap false false live_exists = pure tt

  unfoldable pub delete_swap_directory : CopyStagingPeer → Text → Step (Unit {0})
  delete_swap_directory peer path s =
      (gone_is_ok (T.delete_dir peer.root path s).0, (T.delete_dir peer.root path s).1)

  unfoldable pub recover_named_swap : CopyStagingPeer → Option Text → Text → Step (Unit {0})
  unfolding recover_files path_exists delete_swap_directory
  recover_named_swap peer parent basename = do
    swap ← lift (or_io_error (user_swap_paths parent basename))
    old_exists ← path_exists peer swap.old_path
    new_exists ← path_exists peer swap.new_path
    live_exists ← path_exists peer (join_parent_basename parent basename)
    recover_files peer parent basename swap old_exists new_exists live_exists
    delete_swap_directory peer swap.directory_path

  abbrev pub recovery_result :
      CopyStagingDirectoryRequest → CopyStagingSwapRecoveryStatus → CopyStagingSwapRecoveryResult
  recovery_result request status = record {
    peer_index = request.peer.peer_index;
    directory_relative_path = request.directory_relative_path;
    status = status;
    output_lines = [];
    diagnostics = [];
  }

  abbrev pub failed_recovery :
      CopyStagingDirectoryRequest → Option PeerTransportError → CopyStagingSwapRecoveryResult
  failed_recovery request e = record {
    peer_index = request.peer.peer_index;
    directory_relative_path = request.directory_relative_path;
    status = failed;
    output_lines = [];
    diagnostics =
        record {
          level = error;
          peer_index = request.peer.peer_index;
          peer_url = request.peer.peer_url;
          relative_path = request.directory_relative_path;
          kind = swap_recovery_failed e;
        }
        ∷ [];
  }

  -- The loop over the directories in SWAP
  unfoldable pub recover_entries :
      CopyStagingDirectoryRequest
      → List PeerDirectoryEntry
      → T.State
      → CopyStagingSwapRecoveryResult × T.State
  unfolding recover_named_swap
  recover_entries request [] s = (recovery_result request recovered, s)
  recover_entries request (entry ∷ entries) s =
      let skipped = recover_entries request entries s in
      if entry.is_dir
      then elim (percent_decode_segment entry.child_name) [
        | none ↦ (failed_recovery request none, s)
        | some basename ↦
            elim (recover_named_swap request.peer request.directory_relative_path basename s).0 [
              | err e ↦ (
                failed_recovery request (some e),
                (recover_named_swap request.peer request.directory_relative_path basename s).1,
              )
              | ok _ ↦
                  recover_entries request entries
                    (recover_named_swap request.peer request.directory_relative_path basename s).1
            ]
      ]
      else skipped

  abbrev pub recover_listed :
      CopyStagingDirectoryRequest
      → Result (List PeerDirectoryEntry) PeerTransportError
      → T.State
      → CopyStagingSwapRecoveryResult × T.State
  recover_listed request (ok entries) s = recover_entries request entries s
  recover_listed request (err not_found) s = (recovery_result request recovered, s)
  recover_listed request (err e) s = (failed_recovery request (some e), s)

  abbrev pub swap_root : CopyStagingDirectoryRequest → Text
  swap_root request = metadata_child_path request.directory_relative_path (codes "SWAP")

  unfoldable pub recover_user_swap :
      CopyStagingDirectoryRequest → T.State → CopyStagingSwapRecoveryResult × T.State
  unfolding recover_entries
  recover_user_swap request s =
      if is_dry_run request.options.mode
      then (recovery_result request skipped_dry_run, s)
      else recover_listed request (T.list_dir request.peer.root (swap_root request) s).0
          (T.list_dir request.peer.root (swap_root request) s).1
