-- ===== src/Program/Main.antt =====
-- `main` and `run_sync` of proj/src/main.rs, over the components that they call.
use kitchensync.Base.{codes, Text, true, false, Option, some, List, [], ◌∷◌, ◌++◌, map, join}
use kitchensync.CommandLine.Types.{
  CommandLinePeerRole, normal, canon, subordinate, CommandLinePeer, CommandLineRunRequest,
  CommandLineProcessOutput, help, validation_error, run,
}
use kitchensync.CommandLine.Parse.{parse}
use kitchensync.CommandLine.Screens.{help_output, validation_error_output, sync_complete_output}
use kitchensync.Connections.Types.{
  PeerConnectionsStartupRequest, PeerConnectionsStartupResult, ready, failed, PeerConnectionsPeer,
  PeerConnectionsPeerRole, PeerConnectionsStartupFailureReason, first_sync_needs_canon,
  no_contributing_peer_reachable,
}
use kitchensync.Snapshot.Types.{
  SnapshotDatabaseUploadRequest, SnapshotDatabaseUploadResult, uploaded,
}
use kitchensync.Traversal.Types.{
  SyncTraversalPeerRole, SyncTraversalPeer, SyncTraversalRequest, SyncTraversalResult,
}

-- The operations that are called, over a state of the machine and the peers.
pub record Components : Type 1 where
  pub State : Type 0
  pub start : PeerConnectionsStartupRequest → State → PeerConnectionsStartupResult × State
  pub traverse : SyncTraversalRequest → State → SyncTraversalResult × State
  pub upload_snapshot : SnapshotDatabaseUploadRequest → State → SnapshotDatabaseUploadResult × State

abbrev pub role_prefix : CommandLinePeerRole → Text
role_prefix normal = []
role_prefix canon = codes "+"
role_prefix subordinate = codes "-"

-- One URL as it is, and more between brackets
unfoldable pub written_urls : List Text → Text
unfolding join
written_urls (url ∷ []) = url
written_urls urls = codes "[" ++ (join b',' urls ++ codes "]")

abbrev pub urls_of : CommandLinePeer → List Text
urls_of peer = map (λ alternative. alternative.url) peer.urls

unfoldable pub peer_argument : CommandLinePeer → Text
unfolding written_urls
peer_argument peer = role_prefix peer.role ++ written_urls (urls_of peer)

unfoldable pub peer_arguments : List CommandLinePeer → List Text
unfolding peer_argument
peer_arguments peers = map peer_argument peers

unfoldable pub traversal_role : PeerConnectionsPeerRole → SyncTraversalPeerRole
traversal_role PeerConnectionsPeerRole.normal = SyncTraversalPeerRole.normal
traversal_role PeerConnectionsPeerRole.canon = SyncTraversalPeerRole.canon
traversal_role PeerConnectionsPeerRole.subordinate = SyncTraversalPeerRole.subordinate

abbrev pub traversal_peer : PeerConnectionsPeer → SyncTraversalPeer
unfolding traversal_role
traversal_peer peer = record {
  peer_index = peer.peer_index;
  peer_url = peer.winning_url;
  role = traversal_role peer.role;
  had_snapshot_history = peer.had_snapshot_history;
  root = peer.root;
  snapshot_database = record {
    peer_index = peer.peer_index;
    local_snapshot_path = peer.snapshot_database.path;
  };
}

abbrev pub failure_text : PeerConnectionsStartupFailureReason → Text
failure_text first_sync_needs_canon =
    codes "First sync? Mark the authoritative peer with a leading +\n"
failure_text no_contributing_peer_reachable =
    codes "No contributing peer reachable - cannot make sync decisions\n"
failure_text _ = codes "sync failed\n"

unfoldable pub startup_failure_output :
    PeerConnectionsStartupFailureReason → CommandLineProcessOutput
startup_failure_output reason = record { stdout = failure_text reason; exit_code = 1 }

abbrev pub failed_output : CommandLineProcessOutput
failed_output = record { stdout = []; exit_code = 1 }

abbrev pub startup_request : CommandLineRunRequest → PeerConnectionsStartupRequest
unfolding peer_arguments
startup_request request = record {
  dry_run = request.settings.dry_run;
  timeout_conn_seconds = request.settings.timeout_conn_seconds;
  timeout_idle_seconds = request.settings.timeout_idle_seconds;
  peer_arguments = peer_arguments request.peers;
}

abbrev pub traversal_request :
    CommandLineRunRequest → List PeerConnectionsPeer → SyncTraversalRequest
traversal_request request peers = record {
  peers = map traversal_peer peers;
  retries_list = request.settings.retries_list;
  excludes = request.settings.excludes;
}

abbrev pub upload_request : PeerConnectionsPeer → SnapshotDatabaseUploadRequest
upload_request peer = record {
  peer_index = peer.peer_index;
  peer = peer.root;
  local_snapshot_path = peer.snapshot_database.path;
}

module _ (X : Components) where
  -- The loop over the peers at the end, which stops at the first that fails
  unfoldable pub upload_all :
      List PeerConnectionsPeer → X.State → CommandLineProcessOutput × X.State
  unfolding sync_complete_output
  upload_all [] s = (sync_complete_output, s)
  upload_all (peer ∷ peers) s =
      let (upload, t) = X.upload_snapshot (upload_request peer) s in
      elim upload [ uploaded ↦ upload_all peers t | _ ↦ (failed_output, t) ]

  unfoldable pub after_startup :
      CommandLineRunRequest
      → List PeerConnectionsPeer
      → X.State
      → CommandLineProcessOutput × X.State
  unfolding upload_all sync_complete_output
  after_startup request peers s =
      let (traversal, t) = X.traverse (traversal_request request peers) s in
      elim traversal.diagnostics [
        | diagnostic ∷ diagnostics ↦ (failed_output, t)
        | [] ↦ elim request.settings.dry_run [
          | true ↦ (sync_complete_output, t)
          | false ↦ upload_all peers t
        ]
      ]

  unfoldable pub run_sync : CommandLineRunRequest → X.State → CommandLineProcessOutput × X.State
  unfolding after_startup startup_failure_output
  run_sync request s =
      let (result, t) = X.start (startup_request request) s in
      elim result [
        | ready startup ↦ after_startup request startup.peers t
        | failed unmet ↦ (startup_failure_output unmet.reason, t)
      ]

  -- What is printed and the code of exit; `none` is a panic over the help text.
  unfoldable pub run_program :
      Text → List Text → X.State → Option CommandLineProcessOutput × X.State
  unfolding parse run_sync help_output validation_error_output
  run_program help_spec args s = elim (parse args) [
    | help ↦ (help_output help_spec, s)
    | validation_error unaccepted ↦ (validation_error_output help_spec unaccepted, s)
    | run request ↦ let (output, t) = run_sync request s in (some output, t)
  ]
