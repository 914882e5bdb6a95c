-- ===== src/Traversal/Walk.antt =====
-- The walk over the combined tree: `traverse` of proj/subpjx/SyncTraversal/src/imp.rs, on fuel for the
-- depth of the tree; `none` is a walk that ran out of it.
pub mod Total
pub mod Names
pub mod Depth
use kitchensync.Base.{
  ℕ, zero, suc, codes, Text, text_eq, is_empty, Bool, true, false, ◌||◌, not, Option, none, some,
  List, [], ◌∷◌, ◌++◌, map, any, filter, find_map, and_then, if◌then◌else◌,
}
use kitchensync.Format.Types.{FormatRulesTimestamp}
use kitchensync.Format.Time.{format_timestamp}
use kitchensync.Transport.Types.{PeerDirectoryEntry}
use kitchensync.Snapshot.Types.{SnapshotDatabaseEntryIdentity}
use kitchensync.Traversal.Types.{
  ActivePeer, ListedDirectory, EntryEvidence, Outcome, file, directory, absence, skip_subtree,
  SyncTraversalRequest, SyncTraversalResult, SyncTraversalDiagnostic,
}
use kitchensync.Traversal.Decide.{is_contributing, live_dir, decide_outcome}
use kitchensync.Traversal.Services.{Services}
use kitchensync.Traversal.Listing.{
  join_path, basename, is_excluded, get_entry, listed_entry, Run, entry_identity, directory_request,
  list_level, names_of, gather_evidence, is_listed,
}
use kitchensync.Traversal.Apply.{apply_file_outcome, apply_directory_outcome, apply_absence_outcome}

-- `.kitchensync` and `.git`, which the search for times leaves out
abbrev pub is_builtin : Text → Bool
is_builtin name = text_eq name (codes ".kitchensync") || text_eq name (codes ".git")

-- The directories of the listings, one for each listing that has it
abbrev pub subdirs_in : Text → List (Text × PeerDirectoryEntry) → List Text
subdirs_in path [] = []
subdirs_in path ((_, entry) ∷ entries) =
    let rest = subdirs_in path entries in
    if is_builtin entry.child_name
    then rest
    else if entry.is_dir
    then join_path (some path) entry.child_name ∷ rest
    else rest

abbrev pub subdirs_of : Text → List ListedDirectory → List Text
subdirs_of path [] = []
subdirs_of path (listing ∷ listings) = subdirs_in path listing.entries ++ subdirs_of path listings

module _ (X : Services) where
  -- The times of the files of the listings
  abbrev pub times_in : List (Text × PeerDirectoryEntry) → List FormatRulesTimestamp
  times_in [] = []
  times_in ((_, entry) ∷ entries) =
      let rest = times_in entries in
      if is_builtin entry.child_name || entry.is_dir
      then rest
      else format_timestamp X.chrono entry.mod_time ∷ rest

  abbrev pub times_of : List ListedDirectory → List FormatRulesTimestamp
  times_of [] = []
  times_of (listing ∷ listings) = times_in listing.entries ++ times_of listings

  -- The times, or that a canon peer failed; with the state and the diagnostics
  abbrev pub Times : Type 0
  Times = Option (Option (List FormatRulesTimestamp) × Run X)

  -- The loop over the directories; `walk` is the call for one.
  abbrev pub collect_subdirs :
      (Text → List ActivePeer → Run X → Times)
      → List ActivePeer
      → List ListedDirectory
      → List Text
      → List FormatRulesTimestamp
      → Run X
      → Times
  collect_subdirs walk active_peers listings [] times run = some (some times, run)
  collect_subdirs walk active_peers listings (subdir ∷ subdirs) times run =
      elim (walk subdir
        (filter
          (λ active. live_dir (listed_entry listings active.peer.peer_index (basename subdir)))
          active_peers)
        run) [
          | none ↦ none
          | some (none, after) ↦ some (none, after)
          | some (some more, after) ↦
              collect_subdirs walk active_peers listings subdirs (times ++ more) after
        ]

  abbrev pub collect_level :
      (Text → List ActivePeer → Run X → Times)
      → Text
      → List ActivePeer
      → Option (List ListedDirectory) × Run X
      → Times
  collect_level walk path peers (none, run) = some (none, run)
  collect_level walk path peers (some listings, run) =
      collect_subdirs walk (filter (is_listed listings) peers) listings (subdirs_of path listings)
        (times_of listings) run

  unfoldable pub collect_live_file_times : ℕ → ℕ → Text → List ActivePeer → Run X → Times
  unfolding list_level listed_entry basename join_path
  collect_live_file_times zero retries path peers run = none
  collect_live_file_times (suc fuel) retries path peers run =
      collect_level (collect_live_file_times fuel retries) path peers
        (list_level X peers (some path) retries run)

  -- The walk of one level: the children to recurse into, and the state and the diagnostics
  abbrev pub Level : Type 0
  Level = List (Text × List ActivePeer) × Run X

  abbrev pub recurse_into : Text → List ActivePeer → List (Text × List ActivePeer)
  recurse_into path [] = []
  recurse_into path (active ∷ peers) = (path, active ∷ peers) ∷ []

  unfoldable pub apply_outcome :
      Text → SnapshotDatabaseEntryIdentity → List EntryEvidence → Outcome → Run X → Level
  unfolding apply_file_outcome apply_directory_outcome apply_absence_outcome
  apply_outcome path identity evidence (file sources) (s, diagnostics) =
      ([], (apply_file_outcome X path identity evidence sources s, diagnostics))
  apply_outcome path identity evidence directory (s, diagnostics) =
      let (next_peers, t) = apply_directory_outcome X path identity evidence s in
      (recurse_into path next_peers, (t, diagnostics))
  apply_outcome path identity evidence absence (s, diagnostics) =
      ([], (apply_absence_outcome X path identity evidence s, diagnostics))
  apply_outcome path identity evidence skip_subtree run = ([], run)

  -- `find_map` over the listings, and then whether the name is excluded
  unfoldable pub is_hidden : List ListedDirectory → Text → Text → List Text → Bool
  unfolding is_excluded text_eq
  is_hidden listings name rel_path excludes =
      elim (find_map (λ listing. get_entry name listing.entries) listings) [
        | none ↦ false
        | some entry ↦ is_excluded rel_path entry.is_dir excludes
      ]

  module _ (walk : Text → List ActivePeer → Run X → Times) (active_peers : List ActivePeer)
      (listings : List ListedDirectory) (excludes : List Text) where
    abbrev pub decide_and_apply :
        Text → SnapshotDatabaseEntryIdentity → List EntryEvidence → Run X → Option Level
    decide_and_apply rel_path identity evidence run =
        elim (decide_outcome X.chrono walk rel_path evidence run) [
          | none ↦ none
          | some (outcome, after) ↦ some (apply_outcome rel_path identity evidence outcome after)
        ]

    -- The body of the loop over the names
    unfoldable pub process_name : Option Text → Text → Run X → Option Level
    unfolding join_path is_hidden entry_identity gather_evidence decide_outcome apply_outcome
    process_name path name (s, diagnostics) =
        let rel_path = join_path path name in
        if is_hidden listings name rel_path excludes
        then some ([], (s, diagnostics))
        else elim (entry_identity X rel_path) [
          | none ↦ some ([], (s, diagnostics))
          | some identity ↦
              let (evidence, t) = gather_evidence X active_peers listings name identity.id s in
              decide_and_apply rel_path identity evidence (t, diagnostics)
        ]

    unfoldable pub process_names :
        Option Text → List (Text × Text) → List (Text × List ActivePeer) → Run X → Option Level
    unfolding process_name
    process_names path [] recursion run = some (recursion, run)
    process_names path ((_, name) ∷ names) recursion run = elim (process_name path name run) [
      | none ↦ none
      | some (children, after) ↦ process_names path names (recursion ++ children) after
    ]

  abbrev pub cleanup_peers : List ActivePeer → Option Text → X.State → X.State
  cleanup_peers [] path s = s
  cleanup_peers (active ∷ peers) path s =
      cleanup_peers peers path (X.cleanup_metadata (directory_request X active.peer path) s)

  -- The loop over the children; `walk` is the call for one.
  abbrev pub traverse_children :
      (List ActivePeer → Option Text → Run X → Option (Run X))
      → List (Text × List ActivePeer)
      → Run X
      → Option (Run X)
  traverse_children walk [] run = some run
  traverse_children walk ((child_path, child_peers) ∷ children) run =
      elim (walk child_peers (some child_path) run) [
        | none ↦ none
        | some after ↦ traverse_children walk children after
      ]

  abbrev pub finish_level :
      (List ActivePeer → Option Text → Run X → Option (Run X))
      → List ActivePeer
      → Option Text
      → Option Level
      → Option (Run X)
  finish_level walk active_peers path none = none
  finish_level walk active_peers path (some (recursion, (s, diagnostics))) =
      traverse_children walk recursion (cleanup_peers active_peers path s, diagnostics)

  unfoldable pub traverse_level :
      (List ActivePeer → Option Text → Run X → Option (Run X))
      → (Text → List ActivePeer → Run X → Times)
      → List Text
      → List ActivePeer
      → Option Text
      → Option (List ListedDirectory) × Run X
      → Option (Run X)
  unfolding is_contributing names_of process_names
  traverse_level walk collect excludes peers path (none, run) = some run
  traverse_level walk collect excludes peers path (some listings, run) =
      let active_peers = filter (is_listed listings) peers in
      if any (λ active. is_contributing active.peer) active_peers
      then finish_level walk active_peers path
          (process_names collect active_peers listings excludes path (names_of X listings) [] run)
      else some run

  unfoldable pub traverse_directory :
      ℕ → List Text → ℕ → List ActivePeer → Option Text → Run X → Option (Run X)
  unfolding list_level collect_live_file_times traverse_level
  traverse_directory zero excludes retries peers path run = none
  traverse_directory (suc fuel) excludes retries peers path run =
      traverse_level (traverse_directory fuel excludes retries)
        (collect_live_file_times fuel retries) excludes peers path
        (list_level X peers path retries run)

  abbrev pub result_of : Option (Run X) → Option (SyncTraversalResult × X.State)
  result_of none = none
  result_of (some (s, diagnostics)) = some (record { diagnostics = diagnostics }, s)

  unfoldable pub traverse :
      ℕ → SyncTraversalRequest → X.State → Option (SyncTraversalResult × X.State)
  unfolding traverse_directory
  traverse fuel request s = result_of (
      traverse_directory fuel request.excludes request.retries_list
        (map (λ peer. record { peer = peer }) request.peers) none (s, []))
