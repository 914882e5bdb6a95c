-- ===== src/Copy/Attempt.antt =====
-- One attempt at a staged copy, the tries of `copy_file`, and the displacement to BAK, of
-- proj/subpjx/CopyStaging/src/imp.rs.
pub mod Transfer
pub mod Safety
use kitchensync.Base.{
  ℕ, zero, suc, ◌+◌, codes, Text, Bool, true, false, ◌&&◌, ◌||◌, not, Option, none, some, List, [],
  ◌∷◌, ◌++◌, Result, ok, err, is_ok, map_err, leb, if◌then◌else◌, rsplit_once, max,
}
use kitchensync.Format.Types.{
  FormatRulesTimestamp, FormatRulesUserSwapPaths, FormatRulesValidationError,
}
use kitchensync.Format.Paths.{user_swap_paths, bak_directory_path}
use kitchensync.Transport.Types.{PeerReadChunk, bytes, eof, PeerTransportError, not_found, io_error}
use kitchensync.Transport.Surface.{PeerTransportSurface, Answer}
use kitchensync.Transport.Action.{Action, pure, fail, continue, ◌>>=◌, ◌>>◌}
use kitchensync.Copy.Types.{
  CopyStagingRunMode, normal, dry_run, CopyStagingPeer, CopyStagingCopyRequest,
  CopyStagingFailurePhase, read_source, write_swap_new, move_existing_to_swap_old, rename_final,
  set_mod_time, archive_old, cleanup, CopyStagingCopyStatus, CopyStagingCopyResult,
  CopyStagingDiagnostic, CopyStagingDiagnosticLevel, CopyStagingDiagnosticKind, transfer_failed,
  copy_tries_exhausted, displacement_failed, CopyStagingVerbosity, CopyStagingDisplacementRequest,
  CopyStagingDisplacementResult, CopyStagingDisplacementStatus,
}
use kitchensync.Copy.Paths.{split_parent_basename, join_parent_basename}
use kitchensync.Copy.Swap.{
  or_io_error, is_dry_run, path_exists, archive_swap_old, recover_named_swap, timestamp, lift,
}

-- Why an attempt ends early: a failure with its phase, its error and whether to stop trying; or,
-- which is no value of the code, the fuel of the loop over the source is used up.
pub data Stop : Type 0 where
  failure : CopyStagingFailurePhase → Option PeerTransportError → Bool → Stop
  out_of_fuel : Stop

abbrev pub copy_buffer_bytes : ℕ
copy_buffer_bytes = 65536

module _ (T : PeerTransportSurface)
    (current_timestamp : T.State → FormatRulesTimestamp × T.State) where
  abbrev pub Try : Type 0 → Type 0
  Try A = Action T.State Stop A

  -- `map_err(|error| (phase, Some(error), no_retry))`
  abbrev pub at_phase :
      {A : Type 0} → CopyStagingFailurePhase → Bool → Action T.State PeerTransportError A → Try A
  at_phase phase no_retry step s =
      (map_err (λ e. failure phase (some e) no_retry) (step s).0, (step s).1)

  -- One turn of the `loop` of `copy_attempt`, and what follows it
  abbrev pub on_chunk : T.PeerWriteHandle → Try (Unit {0}) → PeerReadChunk → Try (Unit {0})
  on_chunk write rest eof = pure tt
  on_chunk write rest (bytes buffer) = at_phase write_swap_new false (T.write write buffer) >> rest

  unfoldable pub copy_chunks : ℕ → T.PeerReadHandle → T.PeerWriteHandle → Try (Unit {0})
  copy_chunks zero read write = fail out_of_fuel
  copy_chunks (suc fuel) read write =
      at_phase read_source false (T.read read copy_buffer_bytes)
      >>= on_chunk write (copy_chunks fuel read write)

  module _ (request : CopyStagingCopyRequest) where
    -- A failure after the new file is in place is cleaned up by deleting that file.
    abbrev pub drop_new : Text → CopyStagingFailurePhase → PeerTransportError → Try (Unit {0})
    drop_new new_path phase e s = (
      err (failure phase (some e) false),
      (T.delete_file request.destination_peer.root new_path s).1,
    )

    abbrev pub archive_if : Bool → Option Text → Text → Text → Try (Unit {0})
    archive_if false parent basename old_path = pure tt
    archive_if true parent basename old_path =
        at_phase archive_old true
          (archive_swap_old T current_timestamp request.destination_peer parent basename old_path)

    -- The modification time, the archive of the old file, and the removal of the SWAP directory
    unfoldable pub finish_copy :
        Option Text → Text → FormatRulesUserSwapPaths → Bool → Try (Unit {0})
    finish_copy parent basename swap old_exists = do
      at_phase set_mod_time true (
          T.set_mod_time request.destination_peer.root request.destination_path
            request.winning_mod_time)
      archive_if old_exists parent basename swap.old_path
      at_phase cleanup true (T.delete_dir request.destination_peer.root swap.directory_path)

    abbrev pub after_final :
        Option Text
        → Text
        → FormatRulesUserSwapPaths
        → Bool
        → Result (Unit {0}) PeerTransportError
        → Try (Unit {0})
    after_final parent basename swap old_exists (ok _) = finish_copy parent basename swap old_exists
    after_final parent basename swap true (err e) = fail (failure rename_final (some e) true)
    after_final parent basename swap false (err e) = drop_new swap.new_path rename_final e

    -- The renaming of the new file to its place
    unfoldable pub rename_new :
        Option Text → Text → FormatRulesUserSwapPaths → Bool → Try (Unit {0})
    unfolding finish_copy
    rename_new parent basename swap old_exists s =
        after_final parent basename swap old_exists
          (T.rename request.destination_peer.root swap.new_path request.destination_path s).0
          (T.rename request.destination_peer.root swap.new_path request.destination_path s).1

    abbrev pub after_old :
        Option Text
        → Text
        → FormatRulesUserSwapPaths
        → Result (Unit {0}) PeerTransportError
        → Try (Unit {0})
    after_old parent basename swap (ok _) = rename_new parent basename swap true
    after_old parent basename swap (err e) = drop_new swap.new_path move_existing_to_swap_old e

    -- The renaming of the existing file, if there is one
    abbrev pub move_existing :
        Option Text
        → Text
        → FormatRulesUserSwapPaths
        → Result Bool PeerTransportError
        → Try (Unit {0})
    move_existing parent basename swap (err e) s =
        drop_new swap.new_path move_existing_to_swap_old e s
    move_existing parent basename swap (ok false) s = rename_new parent basename swap false s
    move_existing parent basename swap (ok true) s =
        after_old parent basename swap
          (T.rename request.destination_peer.root request.destination_path swap.old_path s).0
          (T.rename request.destination_peer.root request.destination_path swap.old_path s).1

    unfoldable pub install : Option Text → Text → FormatRulesUserSwapPaths → Try (Unit {0})
    unfolding rename_new path_exists
    install parent basename swap s =
        move_existing parent basename swap
          (path_exists T current_timestamp request.destination_peer request.destination_path s).0
          (path_exists T current_timestamp request.destination_peer request.destination_path s).1

    abbrev pub close_both : T.PeerReadHandle → T.PeerWriteHandle → Try (Unit {0})
    close_both read write =
        at_phase read_source false (T.close_read read)
        >> at_phase write_swap_new false (T.close_write write)

    abbrev pub copy_opened : ℕ → T.PeerReadHandle → T.PeerWriteHandle → Try (Unit {0})
    copy_opened fuel read write = copy_chunks fuel read write >> close_both read write

    abbrev pub open_new : ℕ → FormatRulesUserSwapPaths → T.PeerReadHandle → Try (Unit {0})
    open_new fuel swap read =
        at_phase write_swap_new false (T.open_write request.destination_peer.root swap.new_path)
        >>= copy_opened fuel read

    -- From the source to the new file in SWAP
    unfoldable pub transfer : ℕ → FormatRulesUserSwapPaths → Try (Unit {0})
    unfolding copy_chunks
    transfer fuel swap =
        at_phase read_source false (T.open_read request.source_peer.root request.source_path)
        >>= open_new fuel swap

    unfoldable pub copy_to : ℕ → Option Text → Text → Try (Unit {0})
    unfolding transfer install
    copy_to fuel parent basename = do
      swap ← (λ s. (map_err (λ _. failure cleanup none false) (user_swap_paths parent basename), s))
      at_phase cleanup false
          (recover_named_swap T current_timestamp request.destination_peer parent basename)
      transfer fuel swap
      install parent basename swap

    unfoldable pub copy_attempt : ℕ → Try (Unit {0})
    unfolding copy_to
    copy_attempt fuel =
        copy_to fuel (split_parent_basename request.destination_path).0
          (split_parent_basename request.destination_path).1

    -- The `loop` of `dry_run_read_source`
    unfoldable pub read_chunks : ℕ → T.PeerReadHandle → Try (Unit {0})
    read_chunks zero read = fail out_of_fuel
    read_chunks (suc fuel) read = do
      chunk ← at_phase read_source false (T.read read copy_buffer_bytes)
      elim chunk [ eof ↦ pure tt | bytes _ ↦ read_chunks fuel read ]

    unfoldable pub dry_run_read_source : ℕ → Try (Unit {0})
    unfolding read_chunks
    dry_run_read_source fuel = do
      read ← at_phase read_source false (T.open_read request.source_peer.root request.source_path)
      read_chunks fuel read
      at_phase read_source false (T.close_read read)
