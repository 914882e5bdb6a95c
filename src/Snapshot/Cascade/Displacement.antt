-- ===== src/Snapshot/Cascade/Displacement.antt =====
-- The displacement of a directory, as its snapshot records it.
use kitchensync.Base.{ℕ, ◌<◌, ◌≡◌, Text, true, some, find, ok}
use kitchensync.Format.Time.{Chrono, parse_timestamp_text, parse_timestamp}
use kitchensync.Snapshot.Types.{SnapshotDatabaseRow}
use kitchensync.Snapshot.Rows.{Table, has_id}
use kitchensync.Snapshot.Cascade.{
  record_successful_displacement, displace_row, tombstone, tombstone_subtree, displace_seen,
}
use kitchensync.Snapshot.Cascade.Laws.{Descends, Marked, IsDisplaced, tombstone_subtree_lem}

module _ (chrono : Chrono) where
  displace_seen_directory :
      (fuel : ℕ) (id seen : Text) (instant : ℕ) (table table' : Table)
      → parse_timestamp_text chrono seen ≡ ok instant
      → tombstone_subtree fuel id seen table ≡ some table'
      → displace_seen chrono fuel true id seen table ≡ some (ok tt, some table')
  unfolding tombstone parse_timestamp
  displace_seen_directory fuel id seen instant table table' parses h =
      rw (parses, displace_seen) (rw (h, displace_seen))

  -- If the displaced directory has a row that was seen at a time that parses, and the parent links
  -- of untombstoned rows go down in some rank, then with fuel above the directory's rank the
  -- operation ends and succeeds; and it sets `deleted_time` to that time in exactly the rows that
  -- had none and stand at or below the directory through untombstoned rows, and changes no other.
  pub record_successful_displacement_directory :
      (rank : Text → ℕ) (fuel : ℕ) (id seen : Text) (instant : ℕ) (table : Table)
      (row : SnapshotDatabaseRow)
      → find (has_id id) table ≡ some row
      → row.last_seen ≡ some seen
      → parse_timestamp_text chrono seen ≡ ok instant
      → Descends rank table
      → rank id < fuel
      → (table' : Table) × (record_successful_displacement chrono fuel id true (some table)
          ≡ some (ok tt, some table'))
        × Marked (IsDisplaced table id) seen table table'
  unfolding record_successful_displacement
  record_successful_displacement_directory rank fuel id seen instant table row found last parses
        falls low =
      let (table', e, marked) = tombstone_subtree_lem rank fuel id seen table falls low in
      (
        table',
        rw found (
            rw (last, displace_row)
              (displace_seen_directory fuel id seen instant table table' parses e)),
        marked,
      )
