-- ===== src/Program/Success.antt =====
-- What a run of proj/src/main.rs has done when it reports success.
use kitchensync.Base.{◌≡◌, refl, Bool, true, false, List, [], ◌∷◌}
use kitchensync.CommandLine.Types.{CommandLineRunRequest, CommandLineProcessOutput}
use kitchensync.CommandLine.Screens.{sync_complete_output}
use kitchensync.Connections.Types.{
  PeerConnectionsStartup, PeerConnectionsStartupResult, ready, failed, PeerConnectionsPeer,
}
use kitchensync.Snapshot.Types.{SnapshotDatabaseUploadResult, uploaded, failed}
use kitchensync.Traversal.Types.{SyncTraversalDiagnostic}
use kitchensync.Program.Main.{
  Components, startup_failure_output, failed_output, startup_request, traversal_request,
  upload_request, upload_all, after_startup, run_sync,
}

module _ (X : Components) where
  -- The snapshots of all the peers are uploaded, one after the other.
  pub data Uploads : List PeerConnectionsPeer → X.State → X.State → Type 0 where
    no_peer : (s : X.State) → Uploads [] s s
    next_peer :
        (peer : PeerConnectionsPeer) (peers : List PeerConnectionsPeer) (s t u : X.State)
        → X.upload_snapshot (upload_request peer) s ≡ (uploaded, t)
        → Uploads peers t u
        → Uploads (peer ∷ peers) s u

  upload_all-Uploads :
      (peers : List PeerConnectionsPeer) (s : X.State)
      → (upload_all X peers s).0.exit_code ≡ 0
      → Uploads peers s (upload_all X peers s).1
  unfolding upload_all
  upload_all-Uploads [] s h = no_peer s
  upload_all-Uploads (peer ∷ peers) s h =
      go (X.upload_snapshot (upload_request peer) s) refl h (upload_all-Uploads peers)
    where
      go :
          (answer : SnapshotDatabaseUploadResult × X.State)
          → X.upload_snapshot (upload_request peer) s ≡ answer
          → (elim answer.0 as (λ _. CommandLineProcessOutput × X.State) [
            | uploaded ↦ upload_all X peers answer.1
            | _ ↦ (failed_output, answer.1)
          ]).0.exit_code
            ≡ 0
          → ((t : X.State)
              → (upload_all X peers t).0.exit_code ≡ 0
              → Uploads peers t (upload_all X peers t).1)
          → Uploads
              (peer ∷ peers)
              s
              (elim answer.0 as (λ _. CommandLineProcessOutput × X.State) [
                | uploaded ↦ upload_all X peers answer.1
                | _ ↦ (failed_output, answer.1)
              ]).1
      go (uploaded, t) e h rest = next_peer peer peers s t _ e (rest t h)
      go (SnapshotDatabaseUploadResult.failed diagnostic, t) e h rest = absurd (cc h)

  -- The traversal from a state, and what comes after it
  abbrev pub IsSynced :
      CommandLineRunRequest → List PeerConnectionsPeer → X.State → X.State → Type 0
  IsSynced request peers s u =
      let (traversal, t) = X.traverse (traversal_request request peers) s in
      (traversal.diagnostics ≡ [])
      × (request.settings.dry_run ≡ true → u ≡ t)
      × (request.settings.dry_run ≡ false → Uploads peers t u)

  after_startup-IsSynced :
      (request : CommandLineRunRequest) (peers : List PeerConnectionsPeer) (s : X.State)
      → (after_startup X request peers s).0.exit_code ≡ 0
      → IsSynced request peers s (after_startup X request peers s).1
  unfolding after_startup
  after_startup-IsSynced request peers s h =
      go (X.traverse (traversal_request request peers) s).0.diagnostics request.settings.dry_run h
        (upload_all-Uploads peers (X.traverse (traversal_request request peers) s).1)
    where
      go :
          (diagnostics : List SyncTraversalDiagnostic) (dry : Bool)
          → (elim diagnostics as (λ _. CommandLineProcessOutput × X.State) [
            | diagnostic ∷ diagnostics ↦
                (failed_output, (X.traverse (traversal_request request peers) s).1)
            | [] ↦ elim dry as (λ _. CommandLineProcessOutput × X.State) [
              | true ↦ (sync_complete_output, (X.traverse (traversal_request request peers) s).1)
              | false ↦ upload_all X peers (X.traverse (traversal_request request peers) s).1
            ]
          ]).0.exit_code
            ≡ 0
          → ((upload_all X peers (X.traverse (traversal_request request peers) s).1).0.exit_code ≡ 0
              → Uploads peers
                  (X.traverse (traversal_request request peers) s).1
                  (upload_all X peers (X.traverse (traversal_request request peers) s).1).1)
          → (diagnostics ≡ [])
            × (dry ≡ true
                → (elim diagnostics as (λ _. CommandLineProcessOutput × X.State) [
                  | diagnostic ∷ diagnostics ↦
                      (failed_output, (X.traverse (traversal_request request peers) s).1)
                  | [] ↦ elim dry as (λ _. CommandLineProcessOutput × X.State) [
                    | true ↦
                        (sync_complete_output, (X.traverse (traversal_request request peers) s).1)
                    | false ↦ upload_all X peers (X.traverse (traversal_request request peers) s).1
                  ]
                ]).1
                  ≡ (X.traverse (traversal_request request peers) s).1)
            × (dry ≡ false
                → Uploads peers
                    (X.traverse (traversal_request request peers) s).1
                    (elim diagnostics as (λ _. CommandLineProcessOutput × X.State) [
                      | diagnostic ∷ diagnostics ↦
                          (failed_output, (X.traverse (traversal_request request peers) s).1)
                      | [] ↦ elim dry as (λ _. CommandLineProcessOutput × X.State) [
                        | true ↦ (
                          sync_complete_output,
                          (X.traverse (traversal_request request peers) s).1,
                        )
                        | false ↦
                            upload_all X peers (X.traverse (traversal_request request peers) s).1
                      ]
                    ]).1)
      go (diagnostic ∷ diagnostics) dry h uploads = absurd (cc h)
      go [] true h uploads = (refl, λ _. refl, λ e. absurd (cc e))
      go [] false h uploads = (refl, λ e. absurd (cc e), λ _. uploads h)

  -- A run that exits with 0 had a start that was ready and a traversal without a diagnostic, and
  -- then uploaded the snapshots of all the peers that started; a dry run changed nothing after the
  -- traversal.
  pub run_sync-IsSynced :
      (request : CommandLineRunRequest) (s : X.State)
      → (run_sync X request s).0.exit_code ≡ 0
      → (startup : PeerConnectionsStartup) × ((X.start (startup_request request) s).0
          ≡ ready startup)
        × IsSynced request startup.peers
            (X.start (startup_request request) s).1
            (run_sync X request s).1
  unfolding run_sync startup_failure_output
  run_sync-IsSynced request s h =
      go (X.start (startup_request request) s).0 h
        (λ startup. after_startup-IsSynced request startup.peers _)
    where
      after : PeerConnectionsStartupResult → CommandLineProcessOutput × X.State
      after (ready startup) =
          after_startup X request startup.peers (X.start (startup_request request) s).1
      after (failed unmet) =
          (startup_failure_output unmet.reason, (X.start (startup_request request) s).1)

      go :
          (result : PeerConnectionsStartupResult)
          → (after result).0.exit_code ≡ 0
          → ((startup : PeerConnectionsStartup)
              → (after (ready startup)).0.exit_code ≡ 0
              → IsSynced request startup.peers
                  (X.start (startup_request request) s).1
                  (after (ready startup)).1)
          → (startup : PeerConnectionsStartup) × (result ≡ ready startup)
            × IsSynced request startup.peers
                (X.start (startup_request request) s).1
                (after result).1
      go (ready startup) h synced = (startup, refl, synced startup h)
      go (failed unmet) h synced = absurd (cc h)
