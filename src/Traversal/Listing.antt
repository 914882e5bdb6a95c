-- ===== src/Traversal/Listing.antt =====
-- The listings of one level of the tree: proj/subpjx/SyncTraversal/src/imp.rs.
pub mod Peers
pub mod Attempts
pub mod Order
use kitchensync.Base.{
  ℕ, zero, suc, codes, Text, text_eq, is_empty, starts_with, last, rsplit_once, Bool, true, false,
  ◌&&◌, ◌||◌, Option, none, some, List, [], ◌∷◌, ◌++◌, any, find, find_map, and_then, Result, ok,
  err, to_option, leb, ◌==◌, if◌then◌else◌,
}
use kitchensync.Transport.Types.{
  ConnectedPeerRoot, PeerDirectoryEntry, PeerTransportError, io_error,
}
use kitchensync.Snapshot.Types.{SnapshotDatabaseEntryIdentity, SnapshotDatabaseRow}
use kitchensync.Snapshot.Rows.{text_lt}
use kitchensync.Copy.Types.{
  CopyStagingRunOptions, normal, info, CopyStagingPeer, CopyStagingDirectoryRequest,
  CopyStagingSwapRecoveryStatus, recovered, skipped_dry_run, failed,
}
use kitchensync.Traversal.Types.{
  SyncTraversalPeer, ActivePeer, ListedDirectory, EntryEvidence, SyncTraversalDiagnostic, error,
  directory_listing_failed,
}
use kitchensync.Traversal.Decide.{is_canon}
use kitchensync.Traversal.Services.{Services}

abbrev pub default_copy_options : CopyStagingRunOptions
default_copy_options = record {
  mode = normal;
  max_copies = 10;
  retries_copy = 3;
  keep_bak_days = 90;
  keep_tmp_days = 2;
  verbosity = info;
}

abbrev pub peer_for_copy : SyncTraversalPeer → CopyStagingPeer
peer_for_copy peer = record {
  peer_index = peer.peer_index;
  peer_url = peer.peer_url;
  root = peer.root;
}

abbrev pub transport_path : Option Text → Text
transport_path none = []
transport_path (some path) = path

unfoldable pub join_path : Option Text → Text → Text
join_path none child = child
join_path (some parent) child = if is_empty parent then child else parent ++ (codes "/" ++ child)

abbrev after_slash : Text → Option (Text × Text) → Text
after_slash path none = path
after_slash path (some (_, name)) = name

-- `rsplit('/').next()`
unfoldable pub basename : Text → Text
unfolding rsplit_once
basename path = after_slash path (rsplit_once b'/' path)

unfoldable pub is_excluded : Text → Bool → List Text → Bool
unfolding text_eq starts_with
is_excluded path is_dir excludes =
    ((text_eq path (codes ".kitchensync") || text_eq path (codes ".git")) && is_dir)
    || any (λ exclude. text_eq path exclude || starts_with (exclude ++ codes "/") path) excludes

-- `HashMap::insert`
abbrev pub put_entry :
    PeerDirectoryEntry → List (Text × PeerDirectoryEntry) → List (Text × PeerDirectoryEntry)
put_entry entry [] = (entry.child_name, entry) ∷ []
put_entry entry ((name, old) ∷ entries) =
    let rest = put_entry entry entries in
    if text_eq name entry.child_name then (name, entry) ∷ entries else (name, old) ∷ rest

-- `collect` of the names with their entries
abbrev pub put_entries :
    List PeerDirectoryEntry → List (Text × PeerDirectoryEntry) → List (Text × PeerDirectoryEntry)
put_entries [] map = map
put_entries (entry ∷ entries) map = put_entries entries (put_entry entry map)

abbrev pub get_entry : Text → List (Text × PeerDirectoryEntry) → Option PeerDirectoryEntry
get_entry name entries =
    find_map (λ (key, entry). if text_eq key name then some entry else none) entries

unfoldable pub listed_entry : List ListedDirectory → ℕ → Text → Option PeerDirectoryEntry
unfolding text_eq
listed_entry listings peer_index child_name =
    and_then (find (λ listing. listing.peer_index == peer_index) listings)
      (λ listing. get_entry child_name listing.entries)

-- The order of the pairs of a name in small letters and the name
unfoldable pub name_lt : Text × Text → Text × Text → Bool
unfolding text_lt text_eq
name_lt (lower, name) (lower', name') =
    text_lt lower lower' || (text_eq lower lower' && text_lt name name')

-- `BTreeSet::insert`
abbrev pub insert_name : Text × Text → List (Text × Text) → List (Text × Text)
insert_name key [] = key ∷ []
insert_name key (first ∷ names) =
    let rest = insert_name key names in
    if name_lt key first
    then key ∷ first ∷ names
    else if name_lt first key
    then first ∷ rest
    else first ∷ names

-- `live_peer_indices.contains`
abbrev pub is_listed : List ListedDirectory → ActivePeer → Bool
is_listed listings active = any (λ listing. listing.peer_index == active.peer.peer_index) listings

module _ (X : Services) where
  -- The state and the diagnostics so far
  abbrev pub Run : Type 0
  Run = X.State × List SyncTraversalDiagnostic

  unfoldable pub entry_identity : Text → Option SnapshotDatabaseEntryIdentity
  unfolding basename
  entry_identity path = elim (X.snapshot_path_ids path) [
    | err _ ↦ none
    | ok ids ↦ some (record { id = ids.id; parent_id = ids.parent_id; basename = basename path })
  ]

  abbrev pub flatten_ok : {A E : Type 0} → Result (Option A) E → Option A
  flatten_ok (ok found) = found
  flatten_ok (err _) = none

  unfoldable pub row_for : SyncTraversalPeer → Text → X.State → Option SnapshotDatabaseRow × X.State
  row_for peer entry_id s =
      let (row, t) = X.read_snapshot_row peer.snapshot_database entry_id s in (flatten_ok row, t)

  abbrev pub directory_request : SyncTraversalPeer → Option Text → CopyStagingDirectoryRequest
  directory_request peer path = record {
    options = default_copy_options;
    peer = peer_for_copy peer;
    directory_relative_path = path;
  }

  -- `for _ in 0..attempts`, with the last error
  unfoldable pub list_attempts :
      ℕ
      → ConnectedPeerRoot
      → Text
      → PeerTransportError
      → X.State
      → Result (List PeerDirectoryEntry) PeerTransportError × X.State
  list_attempts zero root path last_error s = (err last_error, s)
  list_attempts (suc n) root path last_error s =
      let (answer, t) = X.list_dir root path s in
      elim answer [
        | ok entries ↦ (ok entries, t)
        | err failure ↦ list_attempts n root path failure t
      ]

  abbrev pub attempts_of : ℕ → ℕ
  attempts_of retries = if leb 1 retries then retries else 1

  unfoldable pub list_dir_for_peer :
      ActivePeer
      → Option Text
      → ℕ
      → X.State
      → Result (List PeerDirectoryEntry) PeerTransportError × X.State
  unfolding list_attempts
  list_dir_for_peer active path retries s =
      let (recovery, t) = X.recover_user_swap (directory_request active.peer path) s in
      elim recovery [
        | failed ↦ (err io_error, t)
        | recovered ↦
            list_attempts (attempts_of retries) active.peer.root (transport_path path) io_error t
        | skipped_dry_run ↦
            list_attempts (attempts_of retries) active.peer.root (transport_path path) io_error t
      ]

  abbrev pub listing_failed :
      ActivePeer → Option Text → PeerTransportError → SyncTraversalDiagnostic
  listing_failed active path failure = record {
    level = error;
    peer_index = active.peer.peer_index;
    path = path;
    kind = directory_listing_failed failure;
  }

  -- The listings and whether a canon peer failed; one peer after the other
  unfoldable pub list_peers :
      List ActivePeer → Option Text → ℕ → Run → List ListedDirectory × Bool × Run
  unfolding list_dir_for_peer is_canon text_eq
  list_peers [] path retries run = ([], false, run)
  list_peers (active ∷ peers) path retries (s, diagnostics) =
      let (result, t) = list_dir_for_peer active path retries s in
      elim result [
        | ok entries ↦
            let (listed, canon_failed, run) = list_peers peers path retries (t, diagnostics) in
            (
              record { peer_index = active.peer.peer_index; entries = put_entries entries [] }
                  ∷ listed,
              canon_failed,
              run,
            )
        | err failure ↦
            let (listed, canon_failed, run) =
              list_peers peers path retries
                (t, diagnostics ++ (listing_failed active path failure ∷ [])) in
            (listed, is_canon active.peer || canon_failed, run)
      ]

  unfoldable pub list_level :
      List ActivePeer → Option Text → ℕ → Run → Option (List ListedDirectory) × Run
  unfolding list_peers
  list_level peers path retries run =
      let (listed, canon_failed, after) = list_peers peers path retries run in
      (if canon_failed then none else some listed, after)

  -- The names of the listings, each once and in their order
  abbrev pub names_onto : List (Text × PeerDirectoryEntry) → List (Text × Text) → List (Text × Text)
  names_onto [] names = names
  names_onto ((name, _) ∷ entries) names =
      names_onto entries (insert_name (X.to_lowercase name, name) names)

  abbrev pub names_from : List ListedDirectory → List (Text × Text) → List (Text × Text)
  names_from [] names = names
  names_from (listing ∷ listings) names = names_from listings (names_onto listing.entries names)

  unfoldable pub names_of : List ListedDirectory → List (Text × Text)
  unfolding name_lt
  names_of listings = names_from listings []

  unfoldable pub gather_evidence :
      List ActivePeer → List ListedDirectory → Text → Text → X.State → List EntryEvidence × X.State
  unfolding listed_entry row_for
  gather_evidence [] listings child_name entry_id s = ([], s)
  gather_evidence (active ∷ peers) listings child_name entry_id s =
      let (row, t) = row_for active.peer entry_id s in
      let (rest, u) = gather_evidence peers listings child_name entry_id t in
      (
        record {
          peer = active;
          live = listed_entry listings active.peer.peer_index child_name;
          row = row;
        }
            ∷ rest,
        u,
      )
