-- ===== src/Tests/Rows.antt =====
-- The properties of snapshot rows at concrete tables.
use kitchensync.Base.{
  ℕ, ◌<◌, ◌≡◌, refl, sym, subst, codes, Text, text_eq, true, some, none, [], ◌∷◌, ok, pos, arith,
  if◌then◌else◌, inl, inr, is_ascii_digit, rsplit_once,
}
use kitchensync.Format.Time.{parse_timestamp_text}
use kitchensync.Snapshot.Types.{SnapshotDatabaseRow, SnapshotDatabaseEntryIdentity}
use kitchensync.Snapshot.Rows.{
  Table, read_snapshot_row, record_completed_file_copy, record_intended_file_copy,
  record_confirmed_file, record_confirmed_absence,
}
use kitchensync.Snapshot.Rows.Laws.{intended_completed, entombed, read-record_confirmed_absence}
use kitchensync.Snapshot.Cascade.{record_successful_displacement}
use kitchensync.Snapshot.Cascade.Laws.{Descends, Marked, IsDisplaced}
use kitchensync.Snapshot.Cascade.Displacement.{record_successful_displacement_directory}
use kitchensync.Tests.Sample.{seconds_only, row_seen}

abbrev stamp : Text
stamp = codes "0000000000000000009_000000Z"

abbrev entry : SnapshotDatabaseEntryIdentity
entry = record { id = codes "a"; parent_id = codes "root"; basename = codes "a.txt" }

abbrev folder_row : SnapshotDatabaseRow
folder_row = row_seen (codes "a") none (some stamp) none

abbrev inner_row : SnapshotDatabaseRow
inner_row = row_seen (codes "b") (some (codes "a")) (some stamp) none

abbrev rows : Table
rows = folder_row ∷ inner_row ∷ []

stamp_parses : parse_timestamp_text seconds_only stamp ≡ ok 9000000000
unfolding parse_timestamp_text seconds_only rsplit_once is_ascii_digit
stamp_parses = refl

intended_completed_example :
    (read_snapshot_row
      (codes "a")
      (record_completed_file_copy
        (codes "a")
        stamp
        (record_intended_file_copy entry (codes "m") (pos 7) (some rows)).1).1).0
    ≡ (read_snapshot_row
        (codes "a")
        (record_confirmed_file entry (codes "m") (pos 7) stamp (some rows)).1).0
intended_completed_example =
    intended_completed entry (codes "m") (pos 7) stamp (codes "a") (some rows)

read-record_confirmed_absence_example :
    (read_snapshot_row
      (codes "b")
      (record_confirmed_absence seconds_only (codes "b") (some rows)).1).0
    ≡ ok (some (entombed seconds_only inner_row))
unfolding text_eq
read-record_confirmed_absence_example =
    read-record_confirmed_absence seconds_only (codes "b") (codes "b") rows

-- The directory stands above the entry in it.
abbrev rank : Text → ℕ
rank id = if text_eq id (codes "a") then 1 else 0

rows-Descends : Descends rank rows
unfolding text_eq
rows-Descends p row (inl e) parent live = absurd (cc (e, parent))
rows-Descends p row (inr (inl e)) parent live =
    let same : p ≡ codes "a" = ground (arith, e, parent) in
    subst (λ q. rank row.id < rank q) (sym same) (subst (λ r. rank r.id < 1) (sym e) (omega arith))
rows-Descends p row (inr (inr m)) parent live = elim m [ ]

record_successful_displacement_directory_example :
    (table' : Table) × (record_successful_displacement seconds_only 2 (codes "a") true (some rows)
      ≡ some (ok tt, some table'))
    × Marked (IsDisplaced rows (codes "a")) stamp rows table'
unfolding text_eq
record_successful_displacement_directory_example =
    record_successful_displacement_directory seconds_only rank 2 (codes "a") stamp 9000000000 rows
      folder_row refl refl stamp_parses rows-Descends (omega arith)
