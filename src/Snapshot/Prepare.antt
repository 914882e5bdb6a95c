-- ===== src/Snapshot/Prepare.antt =====
-- The preparation of a peer's snapshot for a run: `prepare_peer_snapshot` of
-- proj/subpjx/SnapshotDatabase/src/imp.rs. The loop over the peer's file runs on fuel.
pub mod Fuel
pub mod History
use kitchensync.Base.{
  ℕ, zero, suc, Text, Bool, true, false, Option, none, some, List, [], ◌∷◌, Result, ok, err, is_ok,
  if◌then◌else◌,
}
use kitchensync.Transport.Types.{
  ConnectedPeerRoot, PeerMetadata, PeerReadChunk, bytes, eof, PeerTransportError, not_found,
  permission_denied, io_error,
}
use kitchensync.Transport.Surface.{PeerTransportSurface}
use kitchensync.Transport.Action.{Action, pure, fail, continue, ◌>>=◌, ◌>>◌}
use kitchensync.Snapshot.Types.{
  SnapshotDatabaseRunMode, normal, dry_run, SnapshotDatabasePrepareRequest,
  SnapshotDatabasePreparedPeer, SnapshotDatabasePrepareResult, prepared, excluded,
  snapshot_startup_failed, SnapshotDatabaseErrorKind, local_file_error, peer_transport_error,
  local_database_error,
}
use kitchensync.Snapshot.Swap.{live_snapshot_path, diagnostic, recover_snapshot_swap}

-- What is called of the machine, on the local path of the request: each tells whether it went well.
pub record LocalFiles : Type 1 where
  pub State : Type 0
  -- `fs::create_dir_all` of the parent
  pub create_parent : State → Bool × State
  -- `fs::File::create`
  pub create_file : State → Bool × State
  pub write_all : List ℕ → State → Bool × State
  pub exists : State → Bool
  pub remove_file : State → Bool × State
  -- `open_database` and `execute_batch` of the tables
  pub create_tables : State → Bool × State

-- Why a step ends early; that the fuel is used up is no value of the code.
pub data Refusal : Type 0 where
  refused : SnapshotDatabaseErrorKind → Refusal
  out_of_fuel : Refusal

abbrev pub copy_chunk_bytes : ℕ
copy_chunk_bytes = 65536

module _ (T : PeerTransportSurface) (L : LocalFiles) (peer : ConnectedPeerRoot) where
  -- The state of the peers and that of the machine
  abbrev pub Both : Type 0
  Both = T.State × L.State

  abbrev pub Step : Type 0 → Type 0
  Step A = Action Both Refusal A

  abbrev pub or_peer_error : {A : Type 0} → Result A PeerTransportError → Result A Refusal
  or_peer_error (ok a) = ok a
  or_peer_error (err _) = err (refused peer_transport_error)

  abbrev pub on_peer : {A : Type 0} → Action T.State PeerTransportError A → Step A
  on_peer step (s, l) = (or_peer_error (step s).0, ((step s).1, l))

  abbrev pub or_local_error : SnapshotDatabaseErrorKind → Bool → Result (Unit {0}) Refusal
  or_local_error kind true = ok tt
  or_local_error kind false = err (refused kind)

  abbrev pub on_local : SnapshotDatabaseErrorKind → (L.State → Bool × L.State) → Step (Unit {0})
  on_local kind step (s, l) = (or_local_error kind (step l).0, (s, (step l).1))

  -- One turn of the loop of `download_peer_snapshot`; a failed read closes the handle.
  abbrev pub on_read :
      T.PeerReadHandle → Step (Unit {0}) → Result PeerReadChunk PeerTransportError → Step (Unit {0})
  on_read read rest (ok eof) both = (ok tt, both)
  on_read read rest (ok (bytes buffer)) both =
      (on_local local_file_error (L.write_all buffer) >> rest) both
  on_read read rest (err _) (s, l) =
      (err (refused peer_transport_error), ((T.close_read read s).1, l))

  unfoldable pub download_chunks : ℕ → T.PeerReadHandle → Step (Unit {0})
  download_chunks zero read both = fail out_of_fuel both
  download_chunks (suc fuel) read (s, l) =
      on_read read (download_chunks fuel read) (T.read read copy_chunk_bytes s).0
        ((T.read read copy_chunk_bytes s).1, l)

  abbrev pub download_opened : ℕ → T.PeerReadHandle → Step (Unit {0})
  download_opened fuel read = do
    on_local local_file_error L.create_file
    download_chunks fuel read
    on_peer (T.close_read read)

  abbrev pub download_live : ℕ → Step (Unit {0})
  download_live fuel = do
    on_local local_file_error L.create_parent
    on_peer (T.open_read peer live_snapshot_path) >>= download_opened fuel

  -- The match on the metadata of the live snapshot
  abbrev pub after_stat : ℕ → Result PeerMetadata PeerTransportError → Step Bool
  after_stat fuel (ok metadata) =
      if metadata.is_dir
      then fail (refused peer_transport_error)
      else (download_live fuel >> pure true)
  after_stat fuel (err not_found) = pure false
  after_stat fuel (err permission_denied) = fail (refused peer_transport_error)
  after_stat fuel (err io_error) = fail (refused peer_transport_error)

  unfoldable pub download_peer_snapshot : ℕ → Step Bool
  unfolding download_chunks
  download_peer_snapshot fuel (s, l) =
      after_stat fuel (T.stat peer live_snapshot_path s).0 ((T.stat peer live_snapshot_path s).1, l)

  abbrev pub remove_present : Step (Unit {0})
  remove_present (s, l) =
      if L.exists l then on_local local_file_error L.remove_file (s, l) else (ok tt, (s, l))

  unfoldable pub create_database_at : Step (Unit {0})
  create_database_at = do
    on_local local_file_error L.create_parent
    remove_present
    on_local local_database_error L.create_tables

  module _ (request : SnapshotDatabasePrepareRequest) where
    -- The result, or none if the fuel was used up
    abbrev pub Preparation : Type 0
    Preparation = Option SnapshotDatabasePrepareResult × Both

    abbrev pub startup_failed : SnapshotDatabasePrepareResult
    startup_failed = excluded (diagnostic request.peer_index snapshot_startup_failed)

    abbrev pub with_history : Bool → SnapshotDatabasePrepareResult
    with_history had_snapshot_history = prepared (record {
      peer_index = request.peer_index;
      local_snapshot_path = request.local_snapshot_path;
      had_snapshot_history = had_snapshot_history;
    })

    abbrev pub after_create : Result (Unit {0}) Refusal → SnapshotDatabasePrepareResult
    after_create (ok _) = with_history false
    after_create (err _) = startup_failed

    abbrev pub after_download : Result Bool Refusal → Both → Preparation
    after_download (ok true) both = (some (with_history true), both)
    after_download (ok false) both =
        (some (after_create (create_database_at both).0), (create_database_at both).1)
    after_download (err out_of_fuel) both = (none, both)
    after_download (err (refused kind)) both = (some startup_failed, both)

    unfoldable pub prepare_recovered : ℕ → Both → Preparation
    unfolding download_peer_snapshot create_database_at
    prepare_recovered fuel both =
        after_download (download_peer_snapshot fuel both).0 (download_peer_snapshot fuel both).1

    abbrev pub after_recovery : ℕ → Result (Unit {0}) PeerTransportError → Both → Preparation
    after_recovery fuel (ok _) both = prepare_recovered fuel both
    after_recovery fuel (err _) both = (some startup_failed, both)

    abbrev pub prepare_in : SnapshotDatabaseRunMode → ℕ → Both → Preparation
    prepare_in dry_run fuel both = prepare_recovered fuel both
    prepare_in normal fuel (s, l) =
        after_recovery fuel (recover_snapshot_swap T peer s).0
          ((recover_snapshot_swap T peer s).1, l)

    unfoldable pub prepare_peer_snapshot : ℕ → Both → Preparation
    unfolding prepare_recovered recover_snapshot_swap
    prepare_peer_snapshot fuel both = prepare_in request.mode fuel both
