-- ===== src/Snapshot/Prepare/History.antt =====
-- What the preparation of a snapshot says of the peer, and what it leaves alone.
use kitchensync.Base.{
  ℕ, zero, suc, ◌≡◌, ◌≢◌, refl, sym, subst, ◌∙◌, Text, Bool, true, false, Option, none, some,
  Result, ok, err, Bool-cases, inl, inr,
}
use kitchensync.Transport.Types.{
  PeerMetadata, PeerReadChunk, bytes, eof, PeerTransportError, not_found, permission_denied,
  io_error,
}
use kitchensync.Transport.Surface.{PeerTransportSurface, Node, IsLawful}
use kitchensync.Transport.Action.{Action, continue, pure}
use kitchensync.Transport.Keeps.{Keeps, bind-Keeps, if-Keeps}
use kitchensync.Snapshot.Types.{
  SnapshotDatabaseRunMode, normal, dry_run, SnapshotDatabasePrepareRequest, prepared, excluded,
  snapshot_startup_failed, local_file_error,
}
use kitchensync.Snapshot.Swap.{live_snapshot_path, recover_snapshot_swap, diagnostic}
use kitchensync.Snapshot.Prepare.{
  LocalFiles, Refusal, refused, out_of_fuel, copy_chunk_bytes, on_peer, on_local, on_read,
  download_chunks, download_opened, download_live, after_stat, download_peer_snapshot,
  remove_present, create_database_at, after_create, after_download, prepare_recovered,
  after_recovery, prepare_peer_snapshot, Both, Preparation, prepare_in,
}
use kitchensync.Snapshot.Prepare.Fuel.{Ends, download_live-Finishes}

-- What an answer to "had it a snapshot" says of the place of the snapshot
abbrev pub IsTold : Option Node → Result Bool Refusal → Type 0
IsTold place (ok true) = place ≢ none
IsTold place (ok false) = place ≡ none
IsTold place (err (refused kind)) = Unit
IsTold place (err out_of_fuel) = ⊥

module _ (T : PeerTransportSurface) (L : LocalFiles) (request : SnapshotDatabasePrepareRequest)
    (law : IsLawful T request.peer) where
  -- A step leaves what stands at `q`.
  abbrev Leaves : Text → {A : Type 0} → Action (Both T L request.peer) Refusal A → Type 0
  Leaves q step = Keeps (λ both. law.node both.0 q) step

  on_read-Leaves :
      (q : Text) (read : T.PeerReadHandle)
      (rest : Action (Both T L request.peer) Refusal (Unit {0}))
      (answer : Result PeerReadChunk PeerTransportError)
      → Leaves q rest
      → Leaves q (on_read T L request.peer read rest answer)
  on_read-Leaves q read rest (ok eof) h both = refl
  on_read-Leaves q read rest (ok (bytes buffer)) h both =
      bind-Keeps (λ both. law.node both.0 q)
        (on_local T L request.peer local_file_error (L.write_all buffer)) (λ _. rest) (λ both. refl)
        (λ _. h) both
  on_read-Leaves q read rest (err _) h (s, l) = law.node-close_read read q s

  download_chunks-Leaves :
      (q : Text) (fuel : ℕ) (read : T.PeerReadHandle)
      → Leaves q (download_chunks T L request.peer fuel read)
  unfolding download_chunks
  download_chunks-Leaves q zero read both = refl
  download_chunks-Leaves q (suc fuel) read (s, l) =
      on_read-Leaves q read (download_chunks T L request.peer fuel read)
        (T.read read copy_chunk_bytes s).0 (download_chunks-Leaves q fuel read)
        ((T.read read copy_chunk_bytes s).1, l)
      ∙ law.node-read read copy_chunk_bytes q s

  download_opened-Leaves :
      (q : Text) (fuel : ℕ) (read : T.PeerReadHandle)
      → Leaves q (download_opened T L request.peer fuel read)
  download_opened-Leaves q fuel read =
      bind-Keeps (λ both. law.node both.0 q)
        (on_local T L request.peer local_file_error L.create_file) _ (λ both. refl)
        λ _.
          bind-Keeps (λ both. law.node both.0 q) (download_chunks T L request.peer fuel read) _
            (download_chunks-Leaves q fuel read) λ _ (s, l). law.node-close_read read q s

  download_live-Leaves : (q : Text) (fuel : ℕ) → Leaves q (download_live T L request.peer fuel)
  download_live-Leaves q fuel =
      bind-Keeps (λ both. law.node both.0 q)
        (on_local T L request.peer local_file_error L.create_parent) _ (λ both. refl)
        λ _.
          bind-Keeps (λ both. law.node both.0 q)
            (on_peer T L request.peer (T.open_read request.peer live_snapshot_path))
            (download_opened T L request.peer fuel)
            (λ (s, l). law.node-open_read request.peer live_snapshot_path q s)
            (download_opened-Leaves q fuel)

  after_stat-Leaves :
      (q : Text) (fuel : ℕ) (answer : Result PeerMetadata PeerTransportError)
      → Leaves q (after_stat T L request.peer fuel answer)
  after_stat-Leaves q fuel (ok metadata) both =
      if-Keeps (λ both. law.node both.0 q) metadata.is_dir _ _ (λ both. refl)
        (bind-Keeps (λ both. law.node both.0 q) (download_live T L request.peer fuel)
          (λ _. pure true) (download_live-Leaves q fuel) λ _ both. refl)
        both
  after_stat-Leaves q fuel (err not_found) both = refl
  after_stat-Leaves q fuel (err permission_denied) both = refl
  after_stat-Leaves q fuel (err io_error) both = refl

  download_peer_snapshot-Leaves :
      (q : Text) (fuel : ℕ) → Leaves q (download_peer_snapshot T L request.peer fuel)
  unfolding download_peer_snapshot
  download_peer_snapshot-Leaves q fuel (s, l) =
      after_stat-Leaves q fuel (T.stat request.peer live_snapshot_path s).0
        ((T.stat request.peer live_snapshot_path s).1, l)
      ∙ law.node-stat live_snapshot_path q s

  create_database_at-Leaves : (q : Text) → Leaves q (create_database_at T L request.peer)
  unfolding create_database_at
  create_database_at-Leaves q =
      bind-Keeps (λ both. law.node both.0 q)
        (on_local T L request.peer local_file_error L.create_parent) _ (λ both. refl)
        λ _.
          bind-Keeps (λ both. law.node both.0 q) (remove_present T L request.peer) _
            (λ both. elim (Bool-cases (L.exists both.1)) [ inl e ↦ rw e refl | inr e ↦ rw e refl ])
            λ _ both. refl

  after_download-Leaves :
      (q : Text) (answer : Result Bool Refusal) (both : Both T L request.peer)
      → law.node (after_download T L request.peer request answer both).1.0 q ≡ law.node both.0 q
  after_download-Leaves q (ok true) both = refl
  after_download-Leaves q (ok false) both = create_database_at-Leaves q both
  after_download-Leaves q (err out_of_fuel) both = refl
  after_download-Leaves q (err (refused kind)) both = refl

  prepare_recovered-Leaves :
      (q : Text) (fuel : ℕ) (both : Both T L request.peer)
      → law.node (prepare_recovered T L request.peer request fuel both).1.0 q ≡ law.node both.0 q
  unfolding prepare_recovered
  prepare_recovered-Leaves q fuel both =
      after_download-Leaves q (download_peer_snapshot T L request.peer fuel both).0
        (download_peer_snapshot T L request.peer fuel both).1
      ∙ download_peer_snapshot-Leaves q fuel both

  refused_or_true :
      (step : Action (Both T L request.peer) Refusal (Unit {0})) (place : Option Node)
      (both : Both T L request.peer)
      → (step both).0 ≢ err out_of_fuel
      → place ≢ none
      → IsTold place (continue (step both).0 (λ _. pure true) (step both).1).0
  refused_or_true step place both h there = go (step both).0 h
    where
      go :
          (r : Result (Unit {0}) Refusal)
          → r ≢ err out_of_fuel
          → IsTold place (continue r (λ _. pure true) (step both).1).0
      go (ok _) h = there
      go (err (refused kind)) h = tt
      go (err out_of_fuel) h = h refl

  after_stat-IsTold :
      (fuel : ℕ) (place : Option Node) (answer : Result PeerMetadata PeerTransportError)
      (both : Both T L request.peer)
      → Ends T L request fuel
      → ((m : PeerMetadata) → answer ≡ ok m → place ≢ none)
      → (answer ≡ err not_found → place ≡ none)
      → IsTold place (after_stat T L request.peer fuel answer both).0
  after_stat-IsTold fuel place (ok metadata) both ends there gone =
      elim (Bool-cases metadata.is_dir) [
        | inl e ↦ rw e tt
        | inr e ↦ rw e (
            refused_or_true (download_live T L request.peer fuel) place both
              (download_live-Finishes T L request fuel ends both) (there metadata refl))
      ]
  after_stat-IsTold fuel place (err not_found) both ends there gone = gone refl
  after_stat-IsTold fuel place (err permission_denied) both ends there gone = tt
  after_stat-IsTold fuel place (err io_error) both ends there gone = tt

  download_peer_snapshot-IsTold :
      (fuel : ℕ) (both : Both T L request.peer)
      → Ends T L request fuel
      → IsTold
          (law.node both.0 live_snapshot_path)
          (download_peer_snapshot T L request.peer fuel both).0
  unfolding download_peer_snapshot
  download_peer_snapshot-IsTold fuel (s, l) ends =
      after_stat-IsTold fuel (law.node s live_snapshot_path)
        (T.stat request.peer live_snapshot_path s).0
        ((T.stat request.peer live_snapshot_path s).1, l) ends (law.stat-ok live_snapshot_path s)
        (law.stat-not_found live_snapshot_path s)

  -- What the outcome of a preparation says of the peer it leaves
  abbrev pub Tells : Preparation T L request.peer request → Type 0
  Tells (none, both) = ⊥
  Tells (some (prepared p), both) =
      IsTold (law.node both.0 live_snapshot_path) (ok p.had_snapshot_history)
      × (p.peer_index ≡ request.peer_index)
      × (p.local_snapshot_path ≡ request.local_snapshot_path)
  Tells (some (excluded reported), both) =
      reported ≡ diagnostic request.peer_index snapshot_startup_failed

  after_download-Tells :
      (answer : Result Bool Refusal) (both : Both T L request.peer)
      → IsTold (law.node both.0 live_snapshot_path) answer
      → Tells (after_download T L request.peer request answer both)
  after_download-Tells (ok true) both there = (there, refl, refl)
  after_download-Tells (ok false) both gone = go (create_database_at T L request.peer both).0
    where
      go :
          (r : Result (Unit {0}) Refusal)
          → Tells (
            some (after_create T L request.peer request r),
            (create_database_at T L request.peer both).1,
          )
      go (ok _) = (create_database_at-Leaves live_snapshot_path both ∙ gone, refl, refl)
      go (err _) = refl
  after_download-Tells (err (refused kind)) both told = refl
  after_download-Tells (err out_of_fuel) both told = told

  prepare_recovered-Tells :
      (fuel : ℕ) (both : Both T L request.peer)
      → Ends T L request fuel
      → Tells (prepare_recovered T L request.peer request fuel both)
  unfolding prepare_recovered
  prepare_recovered-Tells fuel both ends =
      after_download-Tells (download_peer_snapshot T L request.peer fuel both).0
        (download_peer_snapshot T L request.peer fuel both).1
        (subst (λ place. IsTold place (download_peer_snapshot T L request.peer fuel both).0)
          (sym (download_peer_snapshot-Leaves live_snapshot_path fuel both))
          (download_peer_snapshot-IsTold fuel both ends))

  -- A preparation whose fuel is enough for the reads has an outcome, of this peer. One that is
  -- prepared, at the local path of the request, has snapshot history if and only if something
  -- stands at the place of the live snapshot of the peer it leaves; one that is excluded is
  -- reported as a failed start of the snapshot.
  pub prepare_peer_snapshot-Tells :
      (fuel : ℕ) (both : Both T L request.peer)
      → Ends T L request fuel
      → Tells (prepare_peer_snapshot T L request.peer request fuel both)
  unfolding prepare_peer_snapshot
  prepare_peer_snapshot-Tells fuel (s, l) ends = go request.mode
    where
      recovered :
          (r : Result (Unit {0}) PeerTransportError) (both : Both T L request.peer)
          → Tells (after_recovery T L request.peer request fuel r both)
      recovered (ok _) both = prepare_recovered-Tells fuel both ends
      recovered (err _) both = refl

      go :
          (mode : SnapshotDatabaseRunMode)
          → Tells (prepare_in T L request.peer request mode fuel (s, l))
      go dry_run = prepare_recovered-Tells fuel (s, l) ends
      go normal =
          recovered (recover_snapshot_swap T request.peer s).0
            ((recover_snapshot_swap T request.peer s).1, l)

  -- In a dry run, the preparation leaves what stands at every path of the peer as it was.
  pub prepare_peer_snapshot-dry_run :
      (q : Text) (fuel : ℕ) (both : Both T L request.peer)
      → request.mode ≡ dry_run
      → law.node (prepare_peer_snapshot T L request.peer request fuel both).1.0 q
        ≡ law.node both.0 q
  unfolding prepare_peer_snapshot
  prepare_peer_snapshot-dry_run q fuel both dry =
      subst
        (λ mode.
          law.node (prepare_in T L request.peer request mode fuel both).1.0 q ≡ law.node both.0 q)
        (sym dry) (prepare_recovered-Leaves q fuel both)
