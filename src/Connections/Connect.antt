-- ===== src/Connections/Connect.antt =====
-- How a peer gets its root: proj/subpjx/PeerConnections/src/imp.rs.
use kitchensync.Base.{
  ℕ, codes, Text, strip_prefix, Bool, true, false, not, Option, none, some, List, [], ◌∷◌, ◌++◌,
  if◌then◌else◌,
}
use kitchensync.Snapshot.Types.{
  SnapshotDatabaseRunMode, normal, dry_run, SnapshotDatabasePrepareRequest,
  SnapshotDatabasePreparedPeer, SnapshotDatabasePrepareResult, prepared, excluded,
}
use kitchensync.Connections.Types.{
  ParsedPeer, ConnectedPeer, PreparedPeer, PeerConnectionsDiagnostic, error, peer_unreachable,
  snapshot_startup_failed,
}

-- What the component calls, over a state of the machine and the peers.
pub record Services : Type 1 where
  pub State : Type 0
  -- `FormatRules::normalize_peer_identity` with the directory and the user of this run
  pub normalize_peer_identity : Text → Option Text
  -- `fs::create_dir_all`, and whether it went well
  pub create_dir_all : Text → State → Bool × State
  -- `fs::metadata`, and whether it is a directory
  pub metadata_is_dir : Text → State → Option Bool
  -- `temp_dir` with a file for the counter and the peer
  pub temp_path : ℕ → ℕ → Text
  -- `NEXT_LOCAL_SNAPSHOT.fetch_add`
  pub fetch_add : State → ℕ × State
  pub prepare_peer_snapshot :
      SnapshotDatabasePrepareRequest → State → SnapshotDatabasePrepareResult × State

unfoldable pub file_url_path : Text → Option Text
unfolding strip_prefix
file_url_path url = strip_prefix (codes "file://") url

unfoldable pub unreachable_diagnostic : ℕ → PeerConnectionsDiagnostic
unreachable_diagnostic peer_index = record {
  level = error;
  peer_index = peer_index;
  kind = peer_unreachable;
}

module _ (X : Services) where
  abbrev is_dir_at : Text → X.State → Bool
  is_dir_at path s = elim (X.metadata_is_dir path s) [ some true ↦ true | _ ↦ false ]

  unfoldable pub ensure_local_root : Text → Bool → X.State → Bool × X.State
  ensure_local_root path false s = (is_dir_at path s, s)
  ensure_local_root path true s =
      let (made, t) = X.create_dir_all path s in if made then (is_dir_at path t, t) else (false, t)

  abbrev pub connected : ParsedPeer → Text → Text → ConnectedPeer
  connected peer winning_url root_path = record {
    peer_index = peer.peer_index;
    role = peer.role;
    winning_url = winning_url;
    peer = record { handle = root_path };
  }

  -- The winning URL and its path, if the candidate has one; else the loop goes on.
  unfoldable pub located : Text → Option (Text × Text)
  unfolding file_url_path
  located candidate = elim (X.normalize_peer_identity candidate) [
    | none ↦ none
    | some winning_url ↦ elim (file_url_path winning_url) [
      | none ↦ none
      | some root_path ↦ some (winning_url, root_path)
    ]
  ]

  -- The loop over the candidates
  unfoldable pub try_candidates :
      ParsedPeer → List Text → Bool → X.State → Option ConnectedPeer × X.State
  unfolding ensure_local_root located
  try_candidates peer [] dry s = (none, s)
  try_candidates peer (candidate ∷ candidates) dry s = elim (located candidate) [
    | none ↦ try_candidates peer candidates dry s
    | some (winning_url, root_path) ↦
        let (reached, t) = ensure_local_root root_path (not dry) s in
        elim reached [
          | true ↦ (some (connected peer winning_url root_path), t)
          | false ↦ try_candidates peer candidates dry t
        ]
  ]

  unfoldable pub connect_peer : ParsedPeer → Bool → X.State → Option ConnectedPeer × X.State
  unfolding try_candidates
  connect_peer peer dry s = try_candidates peer peer.candidates dry s

  -- One thread after the other
  unfoldable pub connect_peers :
      List ParsedPeer → Bool → X.State → List (ℕ × Option ConnectedPeer) × X.State
  unfolding connect_peer
  connect_peers [] dry s = ([], s)
  connect_peers (peer ∷ peers) dry s =
      let (one, t) = connect_peer peer dry s in
      let (rest, u) = connect_peers peers dry t in ((peer.peer_index, one) ∷ rest, u)

  unfoldable pub local_snapshot_path : ℕ → X.State → Text × X.State
  local_snapshot_path peer_index s =
      let (unique_id, t) = X.fetch_add s in (X.temp_path unique_id peer_index, t)

  abbrev mode_of : Bool → SnapshotDatabaseRunMode
  mode_of dry = if dry then dry_run else normal

  abbrev prepared_peer : ConnectedPeer → SnapshotDatabasePreparedPeer → PreparedPeer
  prepared_peer peer result = record {
    peer_index = peer.peer_index;
    role = peer.role;
    had_snapshot_history = result.had_snapshot_history;
    winning_url = peer.winning_url;
    peer = peer.peer;
    snapshot_path = result.local_snapshot_path;
  }

  abbrev snapshot_diagnostic : ℕ → PeerConnectionsDiagnostic
  snapshot_diagnostic peer_index = record {
    level = error;
    peer_index = peer_index;
    kind = snapshot_startup_failed;
  }

  -- The peers that are prepared, and the diagnostics that are pushed
  unfoldable pub prepare_snapshots :
      List ConnectedPeer
      → Bool
      → List PeerConnectionsDiagnostic
      → X.State
      → List PreparedPeer × List PeerConnectionsDiagnostic × X.State
  unfolding local_snapshot_path
  prepare_snapshots [] dry diagnostics s = ([], diagnostics, s)
  prepare_snapshots (peer ∷ peers) dry diagnostics s =
      let (path, t) = local_snapshot_path peer.peer_index s in
      let (result, u) =
        X.prepare_peer_snapshot
          (record {
            peer_index = peer.peer_index;
            peer = peer.peer;
            local_snapshot_path = path;
            mode = mode_of dry;
          })
          t in
      elim result [
        | prepared one ↦
            let (rest, told, v) = prepare_snapshots peers dry diagnostics u in
            (prepared_peer peer one ∷ rest, told, v)
        | excluded _ ↦
            prepare_snapshots peers dry (diagnostics ++ (snapshot_diagnostic peer.peer_index ∷ []))
              u
      ]
