-- ===== src/Traversal/Decide.antt =====
-- The decisions of proj/subpjx/SyncTraversal/src/imp.rs: what becomes of one name, from the peers'
-- live entries and snapshot rows.
pub mod File
pub mod Deletion
pub mod Roles
pub mod Conflict
pub mod Directories
use kitchensync.Base.{
  ℕ, zero, suc, ◌+◌, ◌≡◌, ℤ, pos, negsuc, lt_ℤ, eq_ℤ, Text, Bool, true, false, ◌&&◌, ◌||◌, not,
  Option, none, some, List, [], ◌∷◌, map, any, all, filter, find, filter_map, is_empty, and_then,
  to_option, leb, if◌then◌else◌, ltb, length,
}
use kitchensync.Format.Types.{FormatRulesTimestamp}
use kitchensync.Format.Time.{
  Chrono, parse_timestamp, format_timestamp, expect_datetime, peer_mod_time_older_than_max,
  peer_mod_time_tied_with_max, deletion_estimate_wins_over_file_mod_time,
  absent_unconfirmed_file_counts_as_deletion, directory_live_file_timestamp_evidence,
  directory_deletion_estimate_newer_than_live_file_evidence, max_by_system_time,
}
use kitchensync.Transport.Types.{PeerDirectoryEntry}
use kitchensync.Snapshot.Types.{SnapshotDatabaseRow}
use kitchensync.Traversal.Types.{
  SyncTraversalPeer, SyncTraversalPeerRole, normal, canon, subordinate, ActivePeer, EntryEvidence,
  FileVersion, Outcome, file, directory, absence, skip_subtree,
}

-- `role == Canon`
abbrev pub is_canon_role : SyncTraversalPeerRole → Bool
is_canon_role canon = true
is_canon_role _ = false

abbrev pub is_normal_role : SyncTraversalPeerRole → Bool
is_normal_role normal = true
is_normal_role _ = false

unfoldable pub is_canon : SyncTraversalPeer → Bool
is_canon peer = is_canon_role peer.role

unfoldable pub is_contributing : SyncTraversalPeer → Bool
is_contributing peer =
    is_canon_role peer.role || (is_normal_role peer.role && peer.had_snapshot_history)

-- `live.as_ref().map(|entry| !entry.is_dir).unwrap_or(false)`
abbrev pub live_file : Option PeerDirectoryEntry → Bool
live_file none = false
live_file (some entry) = not entry.is_dir

abbrev pub live_dir : Option PeerDirectoryEntry → Bool
live_dir none = false
live_dir (some entry) = entry.is_dir

abbrev pub contributes : EntryEvidence → Bool
contributes item = is_contributing item.peer.peer

abbrev pub has_live_file : EntryEvidence → Bool
has_live_file item = live_file item.live

abbrev pub has_live_dir : EntryEvidence → Bool
has_live_dir item = live_dir item.live

-- A row of a directory, on a peer where nothing is live.
abbrev pub is_row_absence : EntryEvidence → Bool
is_row_absence item = elim item.live [
  | some _ ↦ false
  | none ↦ elim item.row [ none ↦ false | some row ↦ eq_ℤ row.byte_size (negsuc 0) ]
]

-- `map(byte_size).max()`, from the first size on
unfoldable pub max_size : ℤ → List FileVersion → ℤ
max_size size [] = size
max_size size (version ∷ versions) =
    max_size (if lt_ℤ version.entry.byte_size size then size else version.entry.byte_size) versions

abbrev pub max_size_or_zero : List FileVersion → ℤ
max_size_or_zero [] = pos 0
max_size_or_zero (version ∷ versions) = max_size version.entry.byte_size versions

module _ (chrono : Chrono) where
  unfoldable pub row_last_seen_timestamp : SnapshotDatabaseRow → Option FormatRulesTimestamp
  row_last_seen_timestamp row =
      and_then row.last_seen (λ value. to_option (parse_timestamp chrono value))

  unfoldable pub row_deleted_timestamp : SnapshotDatabaseRow → Option FormatRulesTimestamp
  row_deleted_timestamp row =
      and_then row.deleted_time (λ value. to_option (parse_timestamp chrono value))

  -- The vote of an absent peer's row: its tombstone, or its last confirmation if that counts.
  unfoldable pub row_vote : FormatRulesTimestamp → SnapshotDatabaseRow → Option FormatRulesTimestamp
  row_vote max_live_file_mod_time row = elim (row_deleted_timestamp row) [
    | some deleted ↦ some deleted
    | none ↦ elim (row_last_seen_timestamp row) [
      | none ↦ none
      | some last_seen ↦
          if absent_unconfirmed_file_counts_as_deletion chrono last_seen max_live_file_mod_time
          then some last_seen
          else none
    ]
  ]

  unfoldable pub file_deletion_vote :
      FormatRulesTimestamp → EntryEvidence → Option FormatRulesTimestamp
  unfolding row_vote
  file_deletion_vote max_live_file_mod_time item =
      if live_file item.live then none else and_then item.row (row_vote max_live_file_mod_time)

  unfoldable pub live_version : EntryEvidence → Option FileVersion
  live_version item = elim item.live [
    | none ↦ none
    | some entry ↦
        if entry.is_dir
        then none
        else some (record {
          peer = item.peer;
          entry = entry;
          mod_timestamp = format_timestamp chrono entry.mod_time;
        })
  ]

  -- `reduce` over the live modification times
  unfoldable pub reduce_max : FormatRulesTimestamp → List FileVersion → FormatRulesTimestamp
  reduce_max max [] = max
  reduce_max max (current ∷ versions) =
      reduce_max
        (if peer_mod_time_older_than_max chrono max current.mod_timestamp
          then current.mod_timestamp
          else max)
        versions

  unfoldable pub tied_sources : FormatRulesTimestamp → List FileVersion → List FileVersion
  unfolding max_size
  tied_sources max_live live_versions =
      let tied_to_max =
        filter (λ version. peer_mod_time_tied_with_max chrono version.mod_timestamp max_live)
          live_versions in
      filter (λ version. eq_ℤ version.entry.byte_size (max_size_or_zero tied_to_max)) tied_to_max

  unfoldable pub deletion_wins : Option FormatRulesTimestamp → List FileVersion → Bool
  deletion_wins none live_versions = false
  deletion_wins (some deletion) live_versions =
      all
        (λ version. deletion_estimate_wins_over_file_mod_time chrono deletion version.mod_timestamp)
        live_versions

  unfoldable pub choose_sources :
      FormatRulesTimestamp → List EntryEvidence → List FileVersion → Outcome
  unfolding deletion_wins tied_sources file_deletion_vote
  choose_sources max_live evidence live_versions =
      let newest_deletion =
        max_by_system_time chrono (filter_map (file_deletion_vote max_live) evidence) in
      if deletion_wins newest_deletion live_versions
      then absence
      else file (tied_sources max_live live_versions)

  unfoldable pub decide_versions : List EntryEvidence → List FileVersion → Outcome
  unfolding choose_sources reduce_max
  decide_versions evidence [] = absence
  decide_versions evidence (version ∷ versions) =
      choose_sources (reduce_max version.mod_timestamp versions) evidence (version ∷ versions)

  unfoldable pub decide_file_outcome : List EntryEvidence → Outcome
  unfolding decide_versions live_version
  decide_file_outcome evidence = decide_versions evidence (filter_map live_version evidence)

  -- The estimate of one row: its tombstone, or else its last confirmation.
  unfoldable pub row_estimate : EntryEvidence → Option FormatRulesTimestamp
  row_estimate item = and_then item.row λ row. elim (row_deleted_timestamp row) [
    | some deleted ↦ some deleted
    | none ↦ row_last_seen_timestamp row
  ]

  -- The comparison that ends `decide_directory_outcome`.
  unfoldable pub weigh_directory :
      FormatRulesTimestamp → Option (List FormatRulesTimestamp) → Outcome
  weigh_directory deletion_estimate none = skip_subtree
  weigh_directory deletion_estimate (some file_times) =
      elim (directory_live_file_timestamp_evidence chrono file_times) [
        | none ↦ absence
        | some newest_live_file ↦
            if directory_deletion_estimate_newer_than_live_file_evidence chrono deletion_estimate
              newest_live_file
            then absence
            else directory
      ]

  -- The walk that collects live file times acts on the peers, through a state `S`; `none` is a walk
  -- that runs out of fuel.
  module _ {S : Type 0}
      (collect_live_file_times : Text
        → List ActivePeer
        → S
        → Option (Option (List FormatRulesTimestamp) × S)) where
    abbrev pub after_walk :
        FormatRulesTimestamp
        → Option (Option (List FormatRulesTimestamp) × S)
        → Option (Outcome × S)
    after_walk deletion_estimate none = none
    after_walk deletion_estimate (some (file_times, t)) =
        some (weigh_directory deletion_estimate file_times, t)

    unfoldable pub decide_by_estimate :
        Text → List EntryEvidence → Option FormatRulesTimestamp → S → Option (Outcome × S)
    unfolding weigh_directory
    decide_by_estimate path evidence none s = some (directory, s)
    decide_by_estimate path evidence (some deletion_estimate) s =
        let live_dir_peers = map (λ item. item.peer) (filter has_live_dir evidence) in
        after_walk deletion_estimate (collect_live_file_times path live_dir_peers s)

    unfoldable pub decide_directory_outcome :
        Text → List EntryEvidence → List EntryEvidence → S → Option (Outcome × S)
    unfolding decide_by_estimate row_estimate
    decide_directory_outcome path evidence contributing s =
        let live_dirs = length (filter has_live_dir contributing) in
        let row_absences = filter is_row_absence contributing in
        if ltb 0 live_dirs && is_empty row_absences
        then some (directory, s)
        else if leb live_dirs 0
        then some (absence, s)
        else decide_by_estimate path evidence
            (max_by_system_time chrono (filter_map row_estimate row_absences)) s

    -- The decision when the first canon peer is there.
    unfoldable pub decide_by_canon : EntryEvidence → Outcome
    decide_by_canon item = elim item.live [
      | none ↦ absence
      | some entry ↦ if entry.is_dir then directory else decide_file_outcome (item ∷ [])
    ]

    unfoldable pub decide_by_votes :
        Text → List EntryEvidence → List EntryEvidence → S → Option (Outcome × S)
    unfolding decide_directory_outcome
    decide_by_votes path evidence contributing s =
        let has_file = any has_live_file contributing in
        let has_dir = any has_live_dir contributing in
        if has_file && has_dir
        then some (decide_file_outcome (filter has_live_file contributing), s)
        else if has_file
        then some (decide_file_outcome contributing, s)
        else if has_dir
        then decide_directory_outcome path evidence contributing s
        else some (absence, s)

    abbrev pub decide_with :
        Text
        → List EntryEvidence
        → List EntryEvidence
        → Option EntryEvidence
        → S
        → Option (Outcome × S)
    decide_with path evidence contributing none s = decide_by_votes path evidence contributing s
    decide_with path evidence contributing (some item) s = some (decide_by_canon item, s)

    unfoldable pub decide_outcome : Text → List EntryEvidence → S → Option (Outcome × S)
    unfolding decide_by_votes decide_by_canon
    decide_outcome path evidence s =
        decide_with path evidence (filter contributes evidence)
          (find (λ item. is_canon item.peer.peer) evidence) s
