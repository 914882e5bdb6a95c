-- ===== src/Snapshot/Swap.antt =====
-- The upload of a snapshot through the peer's SWAP directory, and the recovery of an upload that
-- was broken off: proj/subpjx/SnapshotDatabase/src/imp.rs.
pub mod Recovery
pub mod Upload
use kitchensync.Base.{
  ℕ, codes, Text, Bool, true, false, Option, none, some, List, [], ◌∷◌, Result, ok, err, is_ok,
  if◌then◌else◌, is_empty,
}
use kitchensync.Format.Types.{FormatRulesSnapshotSwapPaths}
use kitchensync.Format.Paths.{snapshot_swap_paths}
use kitchensync.Transport.Types.{ConnectedPeerRoot, PeerMetadata, PeerTransportError, not_found}
use kitchensync.Transport.Surface.{PeerTransportSurface}
use kitchensync.Transport.Action.{Action, pure, fail, ◌>>=◌, ◌>>◌}
use kitchensync.Snapshot.Types.{
  SnapshotDatabaseDiagnostic, SnapshotDatabaseDiagnosticKind,
  snapshot_upload_failed_before_swap_old, snapshot_upload_failed_after_swap_old,
  SnapshotDatabaseUploadResult, uploaded, failed, SnapshotDatabaseError, SnapshotDatabaseErrorKind,
  local_file_error, peer_transport_error, SnapshotDatabaseDiagnosticLevel, error,
}

abbrev pub live_snapshot_path : Text
live_snapshot_path = codes ".kitchensync/snapshot.db"

abbrev pub old_path : Text
old_path = snapshot_swap_paths.old_path

abbrev pub new_path : Text
new_path = snapshot_swap_paths.new_path

-- The local file as the upload meets it: it does not open, or its reads return these buffers or
-- fail one by one, and an end.
abbrev pub LocalFile : Type 0
LocalFile = Option (List (Option (List ℕ)))

abbrev pub diagnostic : ℕ → SnapshotDatabaseDiagnosticKind → SnapshotDatabaseDiagnostic
diagnostic peer_index kind = record { level = error; peer_index = peer_index; kind = kind }

abbrev pub exists_of : Result PeerMetadata PeerTransportError → Result Bool PeerTransportError
exists_of (ok _) = ok true
exists_of (err not_found) = ok false
exists_of (err e) = err e

-- A failed deletion of what is not there counts as done.
abbrev pub absent_is_ok :
    Result (Unit {0}) PeerTransportError → Result (Unit {0}) PeerTransportError
absent_is_ok (ok _) = ok tt
absent_is_ok (err not_found) = ok tt
absent_is_ok (err e) = err e

module _ (T : PeerTransportSurface) (peer : ConnectedPeerRoot) where
  abbrev pub Step : Type 0 → Type 0
  Step A = Action T.State PeerTransportError A

  unfoldable pub peer_path_exists : Text → Step Bool
  peer_path_exists path s = (exists_of (T.stat peer path s).0, (T.stat peer path s).1)

  unfoldable pub delete_peer_file_if_present : Text → Step (Unit {0})
  delete_peer_file_if_present path s =
      (absent_is_ok (T.delete_file peer path s).0, (T.delete_file peer path s).1)

  -- The `match` on which of old, new and live exist
  unfoldable pub recover_case : Bool → Bool → Bool → Step (Unit {0})
  unfolding delete_peer_file_if_present
  recover_case true new_exists true =
      (if new_exists then delete_peer_file_if_present new_path else pure tt)
      >> T.delete_file peer old_path
  recover_case true true false = do
    T.rename peer new_path live_snapshot_path
    T.delete_file peer old_path
  recover_case true false false = T.rename peer old_path live_snapshot_path
  recover_case false true true = T.delete_file peer new_path
  recover_case false true false = T.rename peer new_path live_snapshot_path
  recover_case false false live_exists = pure tt

  unfoldable pub recover_snapshot_swap : Step (Unit {0})
  unfolding peer_path_exists recover_case
  recover_snapshot_swap = do
    old_exists ← peer_path_exists old_path
    new_exists ← peer_path_exists new_path
    live_exists ← peer_path_exists live_snapshot_path
    recover_case old_exists new_exists live_exists

  -- The `loop` of `upload_local_file`: an empty buffer is the end of the file.
  unfoldable pub upload_chunks :
      T.PeerWriteHandle → List (Option (List ℕ)) → T.State → Bool × T.State
  upload_chunks handle [] s = (true, s)
  upload_chunks handle (none ∷ reads) s = (false, s)
  upload_chunks handle (some buffer ∷ reads) s =
      if is_empty buffer then (true, s) else elim (is_ok (T.write handle buffer s).0) [
        | true ↦ upload_chunks handle reads (T.write handle buffer s).1
        | false ↦ (false, (T.write handle buffer s).1)
      ]

  abbrev pub close_upload : T.PeerWriteHandle → Bool × T.State → Bool × T.State
  close_upload handle (false, s) = (false, s)
  close_upload handle (true, s) = (is_ok (T.close_write handle s).0, (T.close_write handle s).1)

  abbrev pub upload_opened :
      List (Option (List ℕ))
      → Result T.PeerWriteHandle PeerTransportError × T.State
      → Bool × T.State
  upload_opened reads (err e, s) = (false, s)
  upload_opened reads (ok handle, s) = close_upload handle (upload_chunks handle reads s)

  -- Whether it succeeds: the caller asks no more of the error.
  unfoldable pub upload_local_file : LocalFile → Text → T.State → Bool × T.State
  unfolding upload_chunks
  upload_local_file none path s = (false, s)
  upload_local_file (some reads) path s = upload_opened reads (T.open_write peer path s)

  module _ (peer_index : ℕ) where
    abbrev pub upload_failed :
        SnapshotDatabaseDiagnosticKind → T.State → SnapshotDatabaseUploadResult × T.State
    upload_failed kind s = (failed (diagnostic peer_index kind), s)

    -- The deletion of the old snapshot
    abbrev pub finish_upload : T.State → SnapshotDatabaseUploadResult × T.State
    finish_upload s =
        if is_ok (absent_is_ok (T.delete_file peer old_path s).0)
        then (uploaded, (T.delete_file peer old_path s).1)
        else upload_failed snapshot_upload_failed_after_swap_old (T.delete_file peer old_path s).1

    -- The renaming of the new snapshot
    abbrev pub install_new : Bool → T.State → SnapshotDatabaseUploadResult × T.State
    install_new swap_old_exists s =
        if is_ok (T.rename peer new_path live_snapshot_path s).0
        then finish_upload (T.rename peer new_path live_snapshot_path s).1
        else upload_failed
            (if swap_old_exists
              then snapshot_upload_failed_after_swap_old
              else snapshot_upload_failed_before_swap_old)
            (T.rename peer new_path live_snapshot_path s).1

    -- The renaming of the live snapshot, if there is one
    abbrev pub move_live :
        Result Bool PeerTransportError → T.State → SnapshotDatabaseUploadResult × T.State
    move_live (ok true) s =
        if is_ok (T.rename peer live_snapshot_path old_path s).0
        then install_new true (T.rename peer live_snapshot_path old_path s).1
        else upload_failed snapshot_upload_failed_before_swap_old
            (T.rename peer live_snapshot_path old_path s).1
    move_live (ok false) s = install_new false s
    move_live (err e) s = upload_failed snapshot_upload_failed_before_swap_old s

    abbrev pub after_upload : Bool × T.State → SnapshotDatabaseUploadResult × T.State
    after_upload (false, s) = upload_failed snapshot_upload_failed_before_swap_old s
    after_upload (true, s) =
        move_live (peer_path_exists live_snapshot_path s).0
          (peer_path_exists live_snapshot_path s).1

    unfoldable pub upload_snapshot : LocalFile → T.State → SnapshotDatabaseUploadResult × T.State
    unfolding upload_local_file peer_path_exists
    upload_snapshot local s = after_upload (upload_local_file local new_path s)
