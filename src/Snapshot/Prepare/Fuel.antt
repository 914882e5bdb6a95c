-- ===== src/Snapshot/Prepare/Fuel.antt =====
-- That the preparation of a snapshot does not run out of fuel.
use kitchensync.Base.{ℕ, ◌≢◌, Bool, true, false, Result, ok, err}
use kitchensync.Transport.Types.{PeerTransportError}
use kitchensync.Transport.Surface.{PeerTransportSurface}
use kitchensync.Transport.Action.{Action, continue}
use kitchensync.Snapshot.Types.{
  SnapshotDatabasePrepareRequest, SnapshotDatabaseErrorKind, local_file_error,
}
use kitchensync.Snapshot.Swap.{live_snapshot_path}
use kitchensync.Snapshot.Prepare.{
  LocalFiles, Refusal, out_of_fuel, on_peer, on_local, download_chunks, download_opened,
  download_live, Both, or_peer_error, or_local_error,
}

module _ (T : PeerTransportSurface) (L : LocalFiles)
    (request : SnapshotDatabasePrepareRequest) where
  -- The fuel is enough for the file of every state.
  abbrev pub Ends : ℕ → Type 0
  Ends fuel =
      (read : T.PeerReadHandle) (both : Both T L request.peer)
      → (download_chunks T L request.peer fuel read both).0 ≢ err out_of_fuel

  -- A step does not run out of fuel.
  abbrev pub Finishes : {A : Type 0} → Action (Both T L request.peer) Refusal A → Type 0
  Finishes step = (both : Both T L request.peer) → (step both).0 ≢ err out_of_fuel

  bind-Finishes :
      {A B : Type 0} (m : Action (Both T L request.peer) Refusal A)
      (f : A → Action (Both T L request.peer) Refusal B)
      → Finishes m
      → ((a : A) → Finishes (f a))
      → Finishes (λ both. continue (m both).0 f (m both).1)
  bind-Finishes {A} {B} m f h k both = go (m both).0 (h both)
    where
      go :
          (r : Result A Refusal)
          → r ≢ err out_of_fuel
          → (continue r f (m both).1).0 ≢ err out_of_fuel
      go (ok a) _ = k a (m both).1
      go (err e) h = λ e_out. h (cc e_out)

  on_local-Finishes :
      (kind : SnapshotDatabaseErrorKind) (step : L.State → Bool × L.State)
      → Finishes (on_local T L request.peer kind step)
  on_local-Finishes kind step (s, l) = go (step l).0
    where
      go : (b : Bool) → or_local_error T L request.peer kind b ≢ err out_of_fuel
      go true e = cc e
      go false e = cc e

  on_peer-Finishes :
      {A : Type 0} (step : Action T.State PeerTransportError A)
      → Finishes (on_peer T L request.peer step)
  on_peer-Finishes {A} step (s, l) = go (step s).0
    where
      go : (r : Result A PeerTransportError) → or_peer_error T L request.peer r ≢ err out_of_fuel
      go (ok a) e = cc e
      go (err _) e = cc e

  pub download_live-Finishes :
      (fuel : ℕ) → Ends fuel → Finishes (download_live T L request.peer fuel)
  download_live-Finishes fuel ends =
      bind-Finishes (on_local T L request.peer local_file_error L.create_parent) _
        (on_local-Finishes local_file_error L.create_parent)
        λ _.
          bind-Finishes (on_peer T L request.peer (T.open_read request.peer live_snapshot_path))
            (download_opened T L request.peer fuel)
            (on_peer-Finishes (T.open_read request.peer live_snapshot_path))
            λ read.
              bind-Finishes (on_local T L request.peer local_file_error L.create_file) _
                (on_local-Finishes local_file_error L.create_file)
                λ _.
                  bind-Finishes (download_chunks T L request.peer fuel read) _ (ends read)
                    λ _. on_peer-Finishes (T.close_read read)
