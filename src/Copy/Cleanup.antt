-- ===== src/Copy/Cleanup.antt =====
-- The removal of old BAK and TMP data: `cleanup_metadata` of proj/subpjx/CopyStaging/src/imp.rs, on
-- fuel for the depth of what is removed.
pub mod Apart
pub mod Frame
use kitchensync.Base.{
  ℕ, zero, suc, ◌+◌, ◌-◌, ◌*◌, ◌^◌, codes, Text, is_empty, Bool, true, false, not, Option, none,
  some, List, [], ◌∷◌, ◌++◌, Result, ok, err, map_err, ltb, if◌then◌else◌,
}
use kitchensync.Format.Types.{FormatRulesTimestamp, FormatRulesValidationError}
use kitchensync.Format.Time.{Chrono, parse_timestamp, timestamp_system_time}
use kitchensync.Transport.Types.{
  PeerDirectoryEntry, PeerMetadata, PeerTransportError, not_found, permission_denied, io_error,
}
use kitchensync.Transport.Surface.{PeerTransportSurface}
use kitchensync.Transport.Action.{Action, pure, fail, continue, ◌>>=◌, ◌>>◌}
use kitchensync.Copy.Types.{
  CopyStagingPeer, CopyStagingDirectoryRequest, CopyStagingCleanupStatus, completed,
  skipped_dry_run, failed, CopyStagingCleanupResult, CopyStagingDiagnostic,
  CopyStagingDiagnosticLevel, cleanup_failed,
}
use kitchensync.Copy.Swap.{is_dry_run}

-- Why a removal ends early: an error of the transport; or, which is no value of the code, the fuel is
-- used up.
pub data Halt : Type 0 where
  transport : PeerTransportError → Halt
  out_of_fuel : Halt

unfoldable pub join_child : Text → Text → Text
join_child parent child = if is_empty parent then child else parent ++ (codes "/" ++ child)

abbrev pub metadata_child_path : Option Text → Text → Text
metadata_child_path none child = codes ".kitchensync/" ++ child
metadata_child_path (some parent) child = parent ++ (codes "/.kitchensync/" ++ child)

-- `saturating_mul` of `u64`
unfoldable pub saturating_mul : ℕ → ℕ → ℕ
saturating_mul a b = if ltb (a * b) (2 ^ 64) then a * b else 2 ^ 64 - 1

module _ (T : PeerTransportSurface) where
  abbrev pub lifted : {A : Type 0} → Action T.State PeerTransportError A → Action T.State Halt A
  lifted step s = (map_err transport (step s).0, (step s).1)

  abbrev pub each :
      (PeerDirectoryEntry → Action T.State Halt (Unit {0}))
      → List PeerDirectoryEntry
      → Action T.State Halt (Unit {0})
  each step [] = pure tt
  each step (entry ∷ entries) = step entry >> each step entries

  unfoldable pub recursive_delete : ℕ → CopyStagingPeer → Text → Action T.State Halt (Unit {0})
  unfolding join_child
  recursive_delete zero peer path = fail out_of_fuel
  recursive_delete (suc fuel) peer path =
      let children =
        lifted (T.list_dir peer.root path)
        >>= each (λ entry. recursive_delete fuel peer (join_child path entry.child_name))
        >> lifted (T.delete_dir peer.root path) in
      lifted (T.stat peer.root path) >>= λ metadata.
      if metadata.is_dir then children else lifted (T.delete_file peer.root path)

  module _ (chrono : Chrono) where
    -- The name is a timestamp that lies longer ago than the days to keep.
    unfoldable pub is_expired : ℕ → ℕ → PeerDirectoryEntry → Bool
    unfolding saturating_mul
    is_expired keep_days now entry = elim (parse_timestamp chrono entry.child_name) [
      | err _ ↦ false
      | ok created ↦
          ltb (saturating_mul keep_days 86400 * 1000000000)
            (now - timestamp_system_time chrono created)
    ]

    unfoldable pub clean_entry :
        ℕ → CopyStagingPeer → Text → ℕ → ℕ → PeerDirectoryEntry → Action T.State Halt (Unit {0})
    unfolding recursive_delete is_expired
    clean_entry fuel peer root_path keep_days now entry =
        if not entry.is_dir
        then pure tt
        else if is_expired keep_days now entry
        then recursive_delete fuel peer (join_child root_path entry.child_name)
        else pure tt

    abbrev pub clean_listed :
        ℕ
        → CopyStagingPeer
        → Text
        → ℕ
        → ℕ
        → Result (List PeerDirectoryEntry) PeerTransportError
        → Action T.State Halt (Unit {0})
    unfolding clean_entry
    clean_listed fuel peer root_path keep_days now (ok entries) =
        each (clean_entry fuel peer root_path keep_days now) entries
    clean_listed fuel peer root_path keep_days now (err not_found) = pure tt
    clean_listed fuel peer root_path keep_days now (err failed_with) = fail (transport failed_with)

    unfoldable pub cleanup_timestamp_dir :
        ℕ → CopyStagingPeer → Text → ℕ → ℕ → Action T.State Halt (Unit {0})
    unfolding clean_entry
    cleanup_timestamp_dir fuel peer root_path keep_days now s =
        clean_listed fuel peer root_path keep_days now (T.list_dir peer.root root_path s).0
          (T.list_dir peer.root root_path s).1

    abbrev pub cleanup_result :
        CopyStagingDirectoryRequest
        → CopyStagingCleanupStatus
        → List CopyStagingDiagnostic
        → CopyStagingCleanupResult
    cleanup_result request status diagnostics = record {
      peer_index = request.peer.peer_index;
      directory_relative_path = request.directory_relative_path;
      status = status;
      output_lines = [];
      diagnostics = diagnostics;
    }

    abbrev pub cleaned :
        CopyStagingDirectoryRequest → Result (Unit {0}) Halt → Option CopyStagingCleanupResult
    cleaned request (ok _) = some (cleanup_result request completed [])
    cleaned request (err out_of_fuel) = none
    cleaned request (err (transport failed_with)) = some (
        cleanup_result request failed (
          record {
            level = CopyStagingDiagnosticLevel.error;
            peer_index = request.peer.peer_index;
            peer_url = request.peer.peer_url;
            relative_path = request.directory_relative_path;
            kind = cleanup_failed (some failed_with);
          }
          ∷ []))

    -- BAK and then TMP, at the time `now`; `none` is fuel that is used up.
    unfoldable pub cleanup_metadata :
        ℕ → ℕ → CopyStagingDirectoryRequest → T.State → Option CopyStagingCleanupResult × T.State
    unfolding cleanup_timestamp_dir
    cleanup_metadata fuel now request s =
        if is_dry_run request.options.mode
        then (some (cleanup_result request skipped_dry_run []), s)
        else (let both =
              cleanup_timestamp_dir fuel request.peer
                (metadata_child_path request.directory_relative_path (codes "BAK"))
                request.options.keep_bak_days now
              >> cleanup_timestamp_dir fuel request.peer
                  (metadata_child_path request.directory_relative_path (codes "TMP"))
                  request.options.keep_tmp_days now in
            (cleaned request (both s).0, (both s).1))
