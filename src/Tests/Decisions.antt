-- ===== src/Tests/Decisions.antt =====
-- The properties of decisions at concrete evidence.
use kitchensync.Base.{
  negsuc, ◌==◌, ℕ, ◌*◌, ◌≡◌, ◌≢◌, refl, ◌↔◌, codes, Text, true, Option, some, none, List, [], ◌∷◌,
  filter_map, rsplit_once, is_ascii_digit, if◌then◌else◌,
}
use kitchensync.Format.Types.{FormatRulesTimestamp}
use kitchensync.Format.Time.{
  parse_timestamp, directory_live_file_timestamp_evidence,
  directory_deletion_estimate_newer_than_live_file_evidence, format_timestamp, max_by_system_time,
  peer_mod_time_tied_with_max, expect_datetime, parse_timestamp_text, peer_mod_time_older_than_max,
}
use kitchensync.Transport.Types.{PeerDirectoryEntry}
use kitchensync.Traversal.Types.{
  ActivePeer, EntryEvidence, FileVersion, file, directory, absence, normal, canon, subordinate,
}
use kitchensync.Traversal.Decide.{
  row_deleted_timestamp, row_last_seen_timestamp, live_version, decide_file_outcome,
  weigh_directory, decide_outcome, is_contributing, is_canon,
}
use kitchensync.Traversal.Decide.File.{AreSources, decide_file_outcome-AreSources}
use kitchensync.Traversal.Decide.Deletion.{IsDeleted, decide_file_outcome-absence}
use kitchensync.Traversal.Decide.Directories.{BeatsTimes, weigh_directory-absence}
use kitchensync.Traversal.Decide.Roles.{decide_outcome-contributing, decide_outcome_canon}
use kitchensync.Traversal.Decide.Conflict.{decide_outcome_conflict}
use kitchensync.Tests.Sample.{row_seen, seconds_only, second, peer_at, plain_file, folder, item}

-- A walk that finds no file.
abbrev no_walk : Text → List ActivePeer → ℕ → Option (Option (List FormatRulesTimestamp) × ℕ)
no_walk path peers s = some (some [], s)

abbrev old_item : EntryEvidence
old_item = item (peer_at 0 normal true) (some (plain_file (1 * second) 3)) none

abbrev new_item : EntryEvidence
new_item = item (peer_at 1 normal true) (some (plain_file (20 * second) 3)) none

abbrev outsider : EntryEvidence
outsider = item (peer_at 2 subordinate true) (some (plain_file (90 * second) 3)) none

abbrev canon_item : EntryEvidence
canon_item = item (peer_at 3 canon true) (some (plain_file (2 * second) 3)) none

abbrev newest_source : FileVersion
newest_source = record {
  peer = record { peer = peer_at 1 normal true };
  entry = plain_file (20 * second) 3;
  mod_timestamp = format_timestamp seconds_only (20 * second);
}

two_files : decide_file_outcome seconds_only (old_item ∷ new_item ∷ []) ≡ file (newest_source ∷ [])
unfolding decide_file_outcome max_by_system_time peer_mod_time_tied_with_max expect_datetime
    parse_timestamp_text format_timestamp seconds_only rsplit_once is_ascii_digit
    peer_mod_time_older_than_max
two_files = refl

decide_file_outcome-AreSources_example :
    (max : FormatRulesTimestamp) × AreSources seconds_only max
      (filter_map (live_version seconds_only) (old_item ∷ new_item ∷ []))
      (newest_source ∷ [])
decide_file_outcome-AreSources_example =
    decide_file_outcome-AreSources seconds_only (old_item ∷ new_item ∷ []) (newest_source ∷ [])
      two_files

decide_file_outcome-absence_example :
    (decide_file_outcome seconds_only (old_item ∷ new_item ∷ []) ≡ absence)
    ↔ IsDeleted seconds_only
        (old_item ∷ new_item ∷ [])
        (filter_map (live_version seconds_only) (old_item ∷ new_item ∷ []))
decide_file_outcome-absence_example =
    decide_file_outcome-absence seconds_only (old_item ∷ new_item ∷ [])

abbrev stamps : List FormatRulesTimestamp
stamps =
    format_timestamp seconds_only (1 * second) ∷ format_timestamp seconds_only (2 * second) ∷ []

weigh_directory-absence_example :
    ((weigh_directory seconds_only (format_timestamp seconds_only (9 * second)) (some stamps)
        ≡ absence)
      ↔ BeatsTimes seconds_only (format_timestamp seconds_only (9 * second)) stamps)
    × (weigh_directory seconds_only (format_timestamp seconds_only (9 * second)) (some stamps)
          ≢ absence
        → weigh_directory seconds_only (format_timestamp seconds_only (9 * second)) (some stamps)
          ≡ directory)
weigh_directory-absence_example =
    weigh_directory-absence seconds_only (format_timestamp seconds_only (9 * second)) stamps

decide_outcome-contributing_example :
    decide_outcome seconds_only no_walk (codes "a.txt") (old_item ∷ outsider ∷ new_item ∷ []) 0
    ≡ decide_outcome seconds_only no_walk (codes "a.txt") (old_item ∷ new_item ∷ []) 0
unfolding is_contributing
decide_outcome-contributing_example =
    decide_outcome-contributing seconds_only no_walk (codes "a.txt")
      (old_item ∷ outsider ∷ new_item ∷ []) (old_item ∷ new_item ∷ []) 0 refl
      (λ _ walked. absurd (cc walked))

abbrev canon_version : PeerDirectoryEntry → FileVersion
canon_version entry = record {
  peer = record { peer = peer_at 3 canon true };
  entry = entry;
  mod_timestamp = format_timestamp seconds_only entry.mod_time;
}

decide_outcome_canon_example :
    ((entry : PeerDirectoryEntry)
      → canon_item.live ≡ some entry
      → decide_outcome seconds_only no_walk (codes "a.txt") (new_item ∷ canon_item ∷ []) 0
        ≡ some (if entry.is_dir then directory else file (canon_version entry ∷ []), 0))
    × (canon_item.live ≡ none
        → decide_outcome seconds_only no_walk (codes "a.txt") (new_item ∷ canon_item ∷ []) 0
          ≡ some (absence, 0))
unfolding is_canon
decide_outcome_canon_example =
    decide_outcome_canon seconds_only no_walk (codes "a.txt") (new_item ∷ canon_item ∷ [])
      canon_item 0 refl

abbrev folder_item : EntryEvidence
folder_item = item (peer_at 1 normal true) (some folder) none

decide_outcome_conflict_example :
    (sources : List FileVersion) × (max : FormatRulesTimestamp) × (decide_outcome seconds_only
        no_walk
        (codes "a.txt")
        (old_item ∷ folder_item ∷ [])
        0
      ≡ some (file sources, 0))
    × AreSources seconds_only max
        (filter_map (live_version seconds_only) (old_item ∷ folder_item ∷ []))
        sources
unfolding is_canon is_contributing
decide_outcome_conflict_example =
    decide_outcome_conflict seconds_only no_walk (codes "a.txt") (old_item ∷ folder_item ∷ []) 0
      refl refl refl

-- The files below the directory are of the first second, and of a later one on the second peer.
abbrev walk_times : List ActivePeer → List FormatRulesTimestamp
walk_times [] = format_timestamp seconds_only (1 * second) ∷ []
walk_times (active ∷ peers) =
    let rest = walk_times peers in
    if active.peer.peer_index == 2 then format_timestamp seconds_only (90 * second) ∷ rest else rest

abbrev walk : Text → List ActivePeer → ℕ → Option (Option (List FormatRulesTimestamp) × ℕ)
walk path peers s = some (some (walk_times peers), s)

abbrev gone_item : EntryEvidence
gone_item = item (peer_at 0 normal true) none (
    some (record (row_seen (codes "a") none (some (codes "0000000000000000050_000000Z")) none) {
      byte_size = negsuc 0;
    }))

abbrev outside_folder : EntryEvidence
outside_folder = item (peer_at 2 subordinate true) (some folder) none

-- The deletion is later than the files of the peers that contribute.
folder_goes :
    decide_outcome seconds_only walk (codes "a") (gone_item ∷ folder_item ∷ []) 0
    ≡ some (absence, 0)
unfolding decide_outcome is_canon is_contributing max_by_system_time row_deleted_timestamp
    row_last_seen_timestamp parse_timestamp rsplit_once is_ascii_digit seconds_only
    directory_live_file_timestamp_evidence directory_deletion_estimate_newer_than_live_file_evidence
    expect_datetime format_timestamp
folder_goes = refl

-- The later file of the subordinate peer keeps the directory.
folder_stays :
    decide_outcome seconds_only walk (codes "a") (gone_item ∷ folder_item ∷ outside_folder ∷ []) 0
    ≡ some (directory, 0)
unfolding decide_outcome is_canon is_contributing max_by_system_time row_deleted_timestamp
    row_last_seen_timestamp parse_timestamp rsplit_once is_ascii_digit seconds_only
    directory_live_file_timestamp_evidence directory_deletion_estimate_newer_than_live_file_evidence
    expect_datetime format_timestamp
folder_stays = refl
