-- ===== src/Traversal/Apply.antt =====
-- How the outcome of one name is brought about on each peer: proj/subpjx/SyncTraversal/src/imp.rs.
use kitchensync.Base.{
  ℕ, eq_ℤ, Text, Bool, true, false, ◌&&◌, not, Option, none, some, List, [], ◌∷◌, any, ok, err,
  ◌==◌, if◌then◌else◌,
}
use kitchensync.Format.Time.{format_timestamp, timestamp_text}
use kitchensync.Transport.Types.{PeerDirectoryEntry}
use kitchensync.Snapshot.Types.{SnapshotDatabaseEntryIdentity}
use kitchensync.Copy.Types.{CopyStagingCopyStatus, CopyStagingDisplacementStatus}
use kitchensync.Traversal.Types.{ActivePeer, EntryEvidence, FileVersion}
use kitchensync.Traversal.Decide.{live_file, live_dir}
use kitchensync.Traversal.Services.{Services}
use kitchensync.Traversal.Listing.{default_copy_options, peer_for_copy}

abbrev pub is_copied : CopyStagingCopyStatus → Bool
is_copied CopyStagingCopyStatus.completed = true
is_copied CopyStagingCopyStatus.planned_dry_run = true
is_copied CopyStagingCopyStatus.failed = false

abbrev pub is_displaced : CopyStagingDisplacementStatus → Bool
is_displaced CopyStagingDisplacementStatus.displaced = true
is_displaced CopyStagingDisplacementStatus.planned_dry_run = true
is_displaced CopyStagingDisplacementStatus.failed = false

-- The live file of a peer is what a source of the same peer holds.
unfoldable pub already_source : List FileVersion → EntryEvidence → Bool
already_source sources item = elim item.live [
  | none ↦ false
  | some entry ↦
      any
        (λ source.
          source.peer.peer.peer_index == item.peer.peer.peer_index
          && not entry.is_dir
          && eq_ℤ entry.byte_size source.entry.byte_size
          && entry.mod_time == source.entry.mod_time)
        sources
]

module _ (X : Services) where
  unfoldable pub displace :
      Text → SnapshotDatabaseEntryIdentity → EntryEvidence → Bool → X.State → Bool × X.State
  displace path identity item is_directory s =
      let (status, t) =
        X.displace_to_bak
          (record {
            options = default_copy_options;
            peer = peer_for_copy item.peer.peer;
            relative_path = path;
            is_directory = is_directory;
          })
          s in
      if is_displaced status
      then (
        true,
        X.record_successful_displacement item.peer.peer.snapshot_database identity.id is_directory
            t,
      )
      else (false, t)

  -- Displaces what is in the way; `true` is that nothing is in the way any more.
  abbrev pub cleared :
      Bool → Text → SnapshotDatabaseEntryIdentity → EntryEvidence → Bool → X.State → Bool × X.State
  cleared true path identity item is_directory s = displace path identity item is_directory s
  cleared false path identity item is_directory s = (true, s)

  abbrev pub confirm_source :
      SnapshotDatabaseEntryIdentity → FileVersion → EntryEvidence → X.State → X.State
  confirm_source identity primary_source item s =
      let (now, t) = X.current_timestamp s in
      X.record_confirmed_file item.peer.peer.snapshot_database identity
        (timestamp_text X.chrono primary_source.mod_timestamp) primary_source.entry.byte_size
        (timestamp_text X.chrono now) t

  abbrev pub complete_copy :
      CopyStagingCopyStatus → SnapshotDatabaseEntryIdentity → EntryEvidence → X.State → X.State
  complete_copy status identity item s =
      if is_copied status
      then (let (now, t) = X.current_timestamp s in
          X.record_completed_file_copy item.peer.peer.snapshot_database identity.id
            (timestamp_text X.chrono now) t)
      else s

  unfoldable pub copy_to_peer :
      Text → SnapshotDatabaseEntryIdentity → FileVersion → EntryEvidence → X.State → X.State
  copy_to_peer path identity primary_source item s =
      let t =
        X.record_intended_file_copy item.peer.peer.snapshot_database identity
          (timestamp_text X.chrono primary_source.mod_timestamp) primary_source.entry.byte_size s in
      let (status, u) =
        X.copy_file
          (record {
            options = default_copy_options;
            source_peer = peer_for_copy primary_source.peer.peer;
            destination_peer = peer_for_copy item.peer.peer;
            source_path = path;
            destination_path = path;
            relative_path = path;
            winning_mod_time = primary_source.entry.mod_time;
            winning_byte_size = primary_source.entry.byte_size;
          })
          t in
      complete_copy status identity item u

  -- The body of the loop of `apply_file_outcome`
  unfoldable pub apply_file :
      Text
      → SnapshotDatabaseEntryIdentity
      → List FileVersion
      → FileVersion
      → EntryEvidence
      → X.State
      → X.State
  unfolding displace already_source copy_to_peer
  apply_file path identity sources primary_source item s =
      let (clear, t) = cleared (live_dir item.live) path identity item true s in
      if not clear
      then t
      else if already_source sources item
      then confirm_source identity primary_source item t
      else copy_to_peer path identity primary_source item t

  abbrev pub apply_files :
      Text
      → SnapshotDatabaseEntryIdentity
      → List FileVersion
      → FileVersion
      → List EntryEvidence
      → X.State
      → X.State
  apply_files path identity sources primary_source [] s = s
  apply_files path identity sources primary_source (item ∷ evidence) s =
      apply_files path identity sources primary_source evidence
        (apply_file path identity sources primary_source item s)

  unfoldable pub apply_file_outcome :
      Text
      → SnapshotDatabaseEntryIdentity
      → List EntryEvidence
      → List FileVersion
      → X.State
      → X.State
  unfolding apply_file
  apply_file_outcome path identity evidence [] s = s
  apply_file_outcome path identity evidence (primary_source ∷ sources) s =
      apply_files path identity (primary_source ∷ sources) primary_source evidence s

  unfoldable pub keep_directory :
      SnapshotDatabaseEntryIdentity → EntryEvidence → ℕ → X.State → X.State
  unfolding format_timestamp
  keep_directory identity item mod_time s =
      let (now, t) = X.current_timestamp s in
      X.record_listed_directory item.peer.peer.snapshot_database identity
        (timestamp_text X.chrono (format_timestamp X.chrono mod_time)) (timestamp_text X.chrono now)
        t

  abbrev pub make_directory :
      Text → SnapshotDatabaseEntryIdentity → EntryEvidence → X.State → Bool × X.State
  make_directory path identity item s =
      let (made, t) = X.create_dir item.peer.peer.root path s in
      elim made [
        | err _ ↦ (false, t)
        | ok _ ↦
            let (now, u) = X.current_timestamp t in
            (
              true,
              X.record_created_directory item.peer.peer.snapshot_database identity
                  (timestamp_text X.chrono now) (timestamp_text X.chrono now) u,
            )
      ]

  -- The body of the loop of `apply_directory_outcome`; `true` is a peer to recurse into.
  unfoldable pub apply_directory :
      Text → SnapshotDatabaseEntryIdentity → EntryEvidence → X.State → Bool × X.State
  unfolding displace keep_directory
  apply_directory path identity item s =
      let (clear, t) = cleared (live_file item.live) path identity item false s in
      if not clear then (false, t) else elim item.live [
        | none ↦ make_directory path identity item t
        | some entry ↦
            if entry.is_dir
            then (true, keep_directory identity item entry.mod_time t)
            else make_directory path identity item t
      ]

  unfoldable pub apply_directory_outcome :
      Text
      → SnapshotDatabaseEntryIdentity
      → List EntryEvidence
      → X.State
      → List ActivePeer × X.State
  unfolding apply_directory
  apply_directory_outcome path identity [] s = ([], s)
  apply_directory_outcome path identity (item ∷ evidence) s =
      let (recursed, t) = apply_directory path identity item s in
      let (rest, u) = apply_directory_outcome path identity evidence t in
      (if recursed then item.peer ∷ rest else rest, u)

  -- Displaces what is live, whether a file or a directory.
  abbrev pub removed :
      Option PeerDirectoryEntry
      → Text
      → SnapshotDatabaseEntryIdentity
      → EntryEvidence
      → X.State
      → Bool × X.State
  removed none path identity item s = (true, s)
  removed (some entry) path identity item s = displace path identity item entry.is_dir s

  -- The body of the loop of `apply_absence_outcome`
  unfoldable pub apply_absence :
      Text → SnapshotDatabaseEntryIdentity → EntryEvidence → X.State → X.State
  unfolding displace
  apply_absence path identity item s =
      let (clear, t) = removed item.live path identity item s in
      if clear then X.record_confirmed_absence item.peer.peer.snapshot_database identity.id t else t

  unfoldable pub apply_absence_outcome :
      Text → SnapshotDatabaseEntryIdentity → List EntryEvidence → X.State → X.State
  unfolding apply_absence
  apply_absence_outcome path identity [] s = s
  apply_absence_outcome path identity (item ∷ evidence) s =
      apply_absence_outcome path identity evidence (apply_absence path identity item s)
