-- ===== src/Tests/Startup.antt =====
-- Command lines, starts and runs of two peers.
use kitchensync.Base.{
  ℕ, ◌+◌, ◌≡◌, refl, codes, Text, true, false, Option, none, some, List, [], ◌∷◌,
}
use kitchensync.CommandLine.Types.{CommandLinePeer, CommandLineRunRequest, canon, normal}
use kitchensync.CommandLine.Parse.{default_settings, parse_run}
use kitchensync.CommandLine.Limits.{IsRun, parse_run-IsRun}
use kitchensync.CommandLine.Urls.{parse_peer}
use kitchensync.Snapshot.Types.{prepared, uploaded}
use kitchensync.Connections.Types.{
  PeerConnectionsStartup, ready, ParsedPeer, normal_role, ConnectedPeer, PeerConnectionsPeerRole,
}
use kitchensync.Connections.Arguments.{parse_peer_argument, parse_peer_arguments}
use kitchensync.Connections.Connect.{Services, connect_peer, connect_peers}
use kitchensync.Connections.Start.{canon_peer_index, start}
use kitchensync.Connections.Ready.{IsReady, start-IsReady}
use kitchensync.Connections.Candidates.{Found, connect_peer-Found, connect_peers-dry}
use kitchensync.Program.Main.{
  Components, peer_argument, urls_of, startup_request, peer_arguments, run_sync,
}
use kitchensync.Program.Arguments.{parsed_role, parse_peer_argument-peer_argument}
use kitchensync.Program.Success.{IsSynced, run_sync-IsSynced}

abbrev args : List Text
args =
    codes "--retries-copy"
    ∷ codes "7"
    ∷ codes "a"
    ∷ codes "-x"
    ∷ codes "tmp/cache"
    ∷ codes "+[b,sftp://h:22/p?timeout-conn=5]"
    ∷ []

abbrev canon_peer : CommandLinePeer
canon_peer = record {
  role = canon;
  urls =
      record { url = codes "file://b"; timeout_conn_seconds = none; timeout_idle_seconds = none }
      ∷ record {
        url = codes "sftp://h:22/p?timeout-conn=5";
        timeout_conn_seconds = some 5;
        timeout_idle_seconds = none;
      }
      ∷ [];
}

abbrev plain_peer : CommandLinePeer
plain_peer = record {
  role = normal;
  urls =
      record { url = codes "file://a"; timeout_conn_seconds = none; timeout_idle_seconds = none }
      ∷ [];
}

abbrev request : CommandLineRunRequest
request = record {
  settings = record default_settings { retries_copy = 7; excludes = codes "tmp/cache" ∷ [] };
  peers = plain_peer ∷ canon_peer ∷ [];
}

parse_run-IsRun_example : IsRun request
unfolding parse_run
parse_run-IsRun_example = parse_run-IsRun args request refl

parse_peer_argument-peer_argument_example :
    parse_peer_argument 1 (peer_argument canon_peer)
    ≡ record { peer_index = 1; role = parsed_role canon; candidates = urls_of canon_peer }
unfolding parse_peer
parse_peer_argument-peer_argument_example =
    parse_peer_argument-peer_argument (codes "+[b,sftp://h:22/p?timeout-conn=5]") canon_peer 1 refl

-- Every directory is there, and the state counts what is made.
abbrev services : Services
services = record {
  State = ℕ;
  normalize_peer_identity = λ url. some url;
  create_dir_all = λ path s. (true, s + 1);
  metadata_is_dir = λ path s. some true;
  temp_path = λ unique_id peer_index. codes "snapshot";
  fetch_add = λ s. (s, s + 1);
  prepare_peer_snapshot = λ request s. (
    prepared (record {
      peer_index = request.peer_index;
      local_snapshot_path = request.local_snapshot_path;
      had_snapshot_history = true;
    }),
    s,
  );
}

abbrev startup : PeerConnectionsStartup
startup = record {
  peers =
      record {
        peer_index = 0;
        role = PeerConnectionsPeerRole.normal;
        had_snapshot_history = true;
        winning_url = codes "file://a";
        root = record { handle = codes "a" };
        snapshot_database = record { path = codes "snapshot" };
      }
      ∷ record {
        peer_index = 1;
        role = PeerConnectionsPeerRole.canon;
        had_snapshot_history = true;
        winning_url = codes "file://b";
        root = record { handle = codes "b" };
        snapshot_database = record { path = codes "snapshot" };
      }
      ∷ [];
  diagnostics = [];
}

start-IsReady_example : IsReady (some 1) startup.peers
unfolding start peer_arguments parse_peer_arguments canon_peer_index
start-IsReady_example = start-IsReady services (startup_request request) 0 startup refl

abbrev fallback : ParsedPeer
fallback = record {
  peer_index = 0;
  role = normal_role;
  candidates = codes "sftp://h/p" ∷ codes "file://b" ∷ codes "file://c" ∷ [];
}

abbrev answer : Option ConnectedPeer × ℕ
answer = (
  some (record {
    peer_index = 0;
    role = normal_role;
    winning_url = codes "file://b";
    peer = record { handle = codes "b" };
  }),
  1,
)

connect_peer-Found_example : Found services fallback.candidates false 0 answer
unfolding connect_peer
connect_peer-Found_example = connect_peer-Found services fallback false 0

connect_peers-dry_example : (connect_peers services (fallback ∷ []) true 4).1 ≡ 4
connect_peers-dry_example = connect_peers-dry services (fallback ∷ []) 4

abbrev components : Components
components = record {
  State = ℕ;
  start = start services;
  traverse = λ request s. (record { diagnostics = [] }, s + 10);
  upload_snapshot = λ request s. (uploaded, s + 100);
}

run_sync-IsSynced_example :
    (found : PeerConnectionsStartup) × ((components.start (startup_request request) 0).0
      ≡ ready found)
    × IsSynced components request found.peers
        (components.start (startup_request request) 0).1
        (run_sync components request 0).1
unfolding run_sync start peer_arguments
run_sync-IsSynced_example = run_sync-IsSynced components request 0 refl
