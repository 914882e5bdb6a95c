-- ===== src/Connections/Start.antt =====
-- The start of a run: `start` of proj/subpjx/PeerConnections/src/imp.rs.
use kitchensync.Base.{
  ℕ, Bool, true, false, ◌&&◌, not, Option, none, some, List, [], ◌∷◌, map, any, all, find, length,
  ltb, ◌==◌, if◌then◌else◌,
}
use kitchensync.Connections.Types.{
  PeerConnectionsStartupRequest, PeerConnectionsPeerRole, normal, canon, subordinate,
  PeerConnectionsPeer, PeerConnectionsDiagnostic, PeerConnectionsStartupFailureReason,
  fewer_than_two_reachable_peers, canon_peer_unreachable, first_sync_needs_canon,
  no_contributing_peer_reachable, PeerConnectionsStartupFailure, PeerConnectionsStartupResult,
  ready, failed, ParsedRole, normal_role, canon_role, subordinate_role, ParsedPeer, ConnectedPeer,
  PreparedPeer,
}
use kitchensync.Connections.Arguments.{parse_peer_arguments}
use kitchensync.Connections.Connect.{
  Services, unreachable_diagnostic, connect_peers, prepare_snapshots,
}

unfoldable pub final_role : ParsedRole → Bool → PeerConnectionsPeerRole
final_role canon_role had_snapshot_history = canon
final_role subordinate_role had_snapshot_history = subordinate
final_role normal_role true = normal
final_role normal_role false = subordinate

unfoldable pub into_startup_peer : PreparedPeer → PeerConnectionsPeer
unfolding final_role
into_startup_peer peer = record {
  peer_index = peer.peer_index;
  role = final_role peer.role peer.had_snapshot_history;
  had_snapshot_history = peer.had_snapshot_history;
  winning_url = peer.winning_url;
  root = peer.peer;
  snapshot_database = record { path = peer.snapshot_path };
}

abbrev pub is_canon_role : ParsedRole → Bool
is_canon_role canon_role = true
is_canon_role _ = false

-- The index of the first canon peer
unfoldable pub canon_peer_index : List ParsedPeer → Option ℕ
canon_peer_index peers = elim (find (λ peer. is_canon_role peer.role) peers) [
  | none ↦ none
  | some peer ↦ some peer.peer_index
]

-- The reachable peers, and a diagnostic for each of the others
unfoldable pub split_reachable :
    List (ℕ × Option ConnectedPeer) → List ConnectedPeer × List PeerConnectionsDiagnostic
unfolding unreachable_diagnostic
split_reachable [] = ([], [])
split_reachable ((peer_index, some peer) ∷ peers) =
    let (reachable, diagnostics) = split_reachable peers in (peer ∷ reachable, diagnostics)
split_reachable ((peer_index, none) ∷ peers) =
    let (reachable, diagnostics) = split_reachable peers in
    (reachable, unreachable_diagnostic peer_index ∷ diagnostics)

abbrev pub failure :
    PeerConnectionsStartupFailureReason
    → List PeerConnectionsDiagnostic
    → PeerConnectionsStartupFailure
failure reason diagnostics = record { reason = reason; diagnostics = diagnostics }

module _ {A : Type 0} where
  abbrev pub lacks_canon : (A → ℕ) → List A → Option ℕ → Bool
  lacks_canon index peers none = false
  lacks_canon index peers (some wanted) = not (any (λ peer. index peer == wanted) peers)

  -- `index` is the trait `StartupReachablePeer`.
  unfoldable pub reachable_set_failure :
      (A → ℕ)
      → List A
      → Option ℕ
      → List PeerConnectionsDiagnostic
      → Option PeerConnectionsStartupFailure
  reachable_set_failure index peers wanted diagnostics =
      if lacks_canon index peers wanted
      then some (failure canon_peer_unreachable diagnostics)
      else if ltb (length peers) 2
      then some (failure fewer_than_two_reachable_peers diagnostics)
      else none

abbrev pub is_subordinate : PeerConnectionsPeerRole → Bool
is_subordinate subordinate = true
is_subordinate _ = false

abbrev pub is_none {ℓ} : {A : Type ℓ} → Option A → Bool
is_none none = true
is_none (some a) = false

-- From the second check on
unfoldable pub finish_start :
    List PreparedPeer → Option ℕ → List PeerConnectionsDiagnostic → PeerConnectionsStartupResult
unfolding reachable_set_failure into_startup_peer
finish_start prepared wanted diagnostics =
    elim (reachable_set_failure (λ peer. peer.peer_index) prepared wanted diagnostics) [
      | some unmet ↦ failed unmet
      | none ↦
          if not (any (λ peer. peer.had_snapshot_history) prepared) && is_none wanted
          then failed (failure first_sync_needs_canon diagnostics)
          else if all (λ peer. is_subordinate peer.role) (map into_startup_peer prepared)
          then failed (failure no_contributing_peer_reachable diagnostics)
          else ready (record { peers = map into_startup_peer prepared; diagnostics = diagnostics })
    ]

module _ (X : Services) where
  unfoldable pub start :
      PeerConnectionsStartupRequest → X.State → PeerConnectionsStartupResult × X.State
  unfolding parse_peer_arguments canon_peer_index connect_peers split_reachable
      reachable_set_failure prepare_snapshots finish_start
  start request s =
      let parsed_peers = parse_peer_arguments request.peer_arguments in
      let wanted = canon_peer_index parsed_peers in
      let (connected_peers, t) = connect_peers X parsed_peers request.dry_run s in
      let (reachable, diagnostics) = split_reachable connected_peers in
      elim (reachable_set_failure (λ peer. peer.peer_index) reachable wanted diagnostics) [
        | some unmet ↦ (failed unmet, t)
        | none ↦
            let (prepared, told, u) = prepare_snapshots X reachable request.dry_run diagnostics t in
            (finish_start prepared wanted told, u)
      ]
