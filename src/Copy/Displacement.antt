-- ===== src/Copy/Displacement.antt =====
-- `displace_to_bak` of proj/subpjx/CopyStaging/src/imp.rs.
pub mod Laws
use kitchensync.Base.{
  ℕ, codes, Text, Bool, true, false, not, Option, none, some, List, [], ◌∷◌, ◌++◌, Result, ok, err,
  if◌then◌else◌,
}
use kitchensync.Format.Types.{FormatRulesTimestamp}
use kitchensync.Format.Paths.{bak_directory_path}
use kitchensync.Transport.Types.{PeerTransportError}
use kitchensync.Transport.Surface.{PeerTransportSurface}
use kitchensync.Transport.Action.{Action, pure, continue, ◌>>=◌, ◌>>◌}
use kitchensync.Copy.Types.{
  CopyStagingVerbosity, error, info, debug, trace, CopyStagingDisplacementRequest,
  CopyStagingDisplacementResult, CopyStagingDisplacementStatus, displaced, planned_dry_run, failed,
  CopyStagingDiagnosticLevel, displacement_failed, CopyStagingDiagnostic,
}
use kitchensync.Copy.Paths.{split_parent_basename}
use kitchensync.Copy.Swap.{or_io_error, is_dry_run, timestamp, lift}

-- `verbosity != Error`
abbrev pub is_shown : CopyStagingVerbosity → Bool
is_shown error = false
is_shown _ = true

abbrev pub delete_progress : CopyStagingVerbosity → Text → List Text
delete_progress verbosity relative_path =
    if is_shown verbosity then (codes "X " ++ relative_path) ∷ [] else []

module _ (T : PeerTransportSurface)
    (current_timestamp : T.State → FormatRulesTimestamp × T.State) where
  module _ (request : CopyStagingDisplacementRequest) where
    -- The closure of `displace_to_bak`
    unfoldable pub move_to_bak : Option Text → Text → Action T.State PeerTransportError (Unit {0})
    move_to_bak parent basename = do
      now ← timestamp T current_timestamp
      bak_dir ← lift T current_timestamp (or_io_error (bak_directory_path parent now))
      T.create_dir request.peer.root bak_dir
      T.rename request.peer.root request.relative_path (bak_dir ++ basename)

    abbrev pub displacement_result :
        CopyStagingDisplacementStatus
        → List Text
        → List CopyStagingDiagnostic
        → CopyStagingDisplacementResult
    displacement_result status lines diagnostics = record {
      peer_index = request.peer.peer_index;
      peer_url = request.peer.peer_url;
      relative_path = request.relative_path;
      status = status;
      output_lines = lines;
      diagnostics = diagnostics;
    }

    abbrev pub moved : Result (Unit {0}) PeerTransportError → CopyStagingDisplacementResult
    moved (ok _) =
        displacement_result displaced
          (delete_progress request.options.verbosity request.relative_path) []
    moved (err e) = displacement_result failed [] (
        record {
          level = CopyStagingDiagnosticLevel.error;
          peer_index = request.peer.peer_index;
          peer_url = request.peer.peer_url;
          relative_path = some request.relative_path;
          kind = displacement_failed (some e);
        }
        ∷ [])

    abbrev pub displace_split :
        Option Text × Text → T.State → CopyStagingDisplacementResult × T.State
    displace_split (parent, basename) s =
        (moved (move_to_bak parent basename s).0, (move_to_bak parent basename s).1)

    unfoldable pub displace_to_bak : T.State → CopyStagingDisplacementResult × T.State
    unfolding move_to_bak
    displace_to_bak s =
        if is_dry_run request.options.mode
        then (
          displacement_result planned_dry_run
              (delete_progress request.options.verbosity request.relative_path) [],
          s,
        )
        else displace_split (split_parent_basename request.relative_path) s
