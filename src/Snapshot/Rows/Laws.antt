-- ===== src/Snapshot/Rows/Laws.antt =====
-- Reading a row back after each write.
use kitchensync.Base.{
  false, is_ok, Option-cases, Bool-cases, ℤ, ◌≡◌, refl, subst, ap, Text, text_eq, text_eq_iff,
  Option, none, some, [], ◌∷◌, find, ok, arith, inl, inr, if◌then◌else◌,
}
use kitchensync.Format.Time.{
  Chrono, parse_timestamp, parse_timestamp_text, confirmed_absence_deleted_time,
}
use kitchensync.Snapshot.Types.{SnapshotDatabaseEntryIdentity, SnapshotDatabaseRow}
use kitchensync.Snapshot.Rows.{
  Table, Database, has_id, is_null, upsert, upsert_intended, update_where, untombstoned_id,
  set_deleted, read_snapshot_row, record_confirmed_file, record_intended_file_copy,
  record_completed_file_copy, record_confirmed_absence, confirm_absence,
}

pub find-upsert :
    (j : Text) (row : SnapshotDatabaseRow) (table : Table)
    → find (has_id j) (upsert row table)
      ≡ (if text_eq row.id j then some row else find (has_id j) table)
unfolding upsert
find-upsert j row [] = ground arith
find-upsert j row (x ∷ table) = ground (
  arith,
  find-upsert j row table,
  text_eq_iff x.id row.id,
  text_eq_iff x.id j,
  text_eq_iff row.id j,
)

abbrev pub seen_of : Option SnapshotDatabaseRow → Option Text
seen_of none = none
seen_of (some row) = row.last_seen

pub find-upsert_intended :
    (j : Text) (row : SnapshotDatabaseRow) (table : Table)
    → row.last_seen ≡ none
    → find (has_id j) (upsert_intended row table) ≡ (
        if text_eq row.id j
        then some (record row { last_seen = seen_of (find (has_id row.id) table) })
        else find (has_id j) table)
unfolding upsert_intended
find-upsert_intended j row [] h = ground (arith, h)
find-upsert_intended j row (x ∷ table) h = ground (
  arith,
  find-upsert_intended j row table h,
  text_eq_iff x.id row.id,
  text_eq_iff x.id j,
  text_eq_iff row.id j,
)

abbrev pub seen_at : Text → SnapshotDatabaseRow → SnapshotDatabaseRow
seen_at time row = record row { last_seen = some time }

abbrev pub map_row :
    (SnapshotDatabaseRow → SnapshotDatabaseRow)
    → Option SnapshotDatabaseRow
    → Option SnapshotDatabaseRow
map_row f none = none
map_row f (some row) = some (f row)

pub find-seen_at :
    (i j time : Text) (table : Table)
    → find (has_id j) (update_where (has_id i) (seen_at time) table) ≡ (
        if text_eq i j
        then map_row (seen_at time) (find (has_id j) table)
        else find (has_id j) table)
unfolding update_where
find-seen_at i j time [] = ground arith
find-seen_at i j time (x ∷ table) =
    ground
      (arith, find-seen_at i j time table, text_eq_iff x.id i, text_eq_iff x.id j, text_eq_iff i j)

-- A copy that is recorded as intended and then as completed leaves what a confirmation of the file
-- leaves: every row reads the same, from whatever the database held, open or not.
pub intended_completed :
    (entry : SnapshotDatabaseEntryIdentity) (mod_time : Text) (byte_size : ℤ) (last_seen j : Text)
    (db : Database)
    → (read_snapshot_row j
        (record_completed_file_copy entry.id last_seen
          (record_intended_file_copy entry mod_time byte_size db).1).1).0
      ≡ (read_snapshot_row j (record_confirmed_file entry mod_time byte_size last_seen db).1).0
unfolding read_snapshot_row record_completed_file_copy record_intended_file_copy
    record_confirmed_file
intended_completed entry mod_time byte_size last_seen j none = refl
intended_completed entry mod_time byte_size last_seen j (some table) =
    let intended : SnapshotDatabaseRow = record {
      id = entry.id;
      parent_id = some entry.parent_id;
      basename = entry.basename;
      mod_time = mod_time;
      byte_size = byte_size;
      last_seen = none;
      deleted_time = none;
    } in
    ap ok (
      rw
        (
          find-seen_at entry.id j last_seen,
          find-upsert_intended j intended table refl,
          find-upsert j,
        )
        (ground arith))

abbrev pub fill_deleted : Text → SnapshotDatabaseRow → SnapshotDatabaseRow
fill_deleted time row = if is_null row.deleted_time then set_deleted time row else row

find-set_deleted :
    (i time : Text) (table : Table)
    → find (has_id i) (update_where (untombstoned_id i) (set_deleted time) table)
      ≡ map_row (fill_deleted time) (find (has_id i) table)
unfolding update_where
find-set_deleted i time [] = refl
find-set_deleted i time (x ∷ table) = ground (arith, find-set_deleted i time table)

-- A tombstone goes to one entry alone.
find-set_deleted_other :
    (i j time : Text) (table : Table)
    → text_eq i j ≡ false
    → find (has_id j) (update_where (untombstoned_id i) (set_deleted time) table)
      ≡ find (has_id j) table
unfolding update_where
find-set_deleted_other i j time [] h = refl
find-set_deleted_other i j time (x ∷ table) h =
    ground
      (arith, h, find-set_deleted_other i j time table h, text_eq_iff x.id i, text_eq_iff x.id j)

-- A row after its absence was confirmed: the time of its last sight, if that is a time, is the
-- tombstone of a row that has none.
abbrev pub entombed : Chrono → SnapshotDatabaseRow → SnapshotDatabaseRow
entombed chrono row = elim row.deleted_time [
  | some deleted ↦ row
  | none ↦ elim row.last_seen [
    | none ↦ row
    | some seen ↦
        if is_ok (parse_timestamp_text chrono seen)
        then record row { deleted_time = some seen }
        else row
  ]
]

confirm_absence-same :
    (chrono : Chrono) (id : Text) (table : Table) (found : Option SnapshotDatabaseRow)
    → find (has_id id) table ≡ found
    → find (has_id id) (confirm_absence chrono id table found).1 ≡ map_row (entombed chrono) found
unfolding confirmed_absence_deleted_time parse_timestamp
confirm_absence-same chrono id table none e = e
confirm_absence-same chrono id table (some row) e = elim (Option-cases row.last_seen) [
  | inl unseen ↦ ground (arith, unseen, e)
  | inr (seen, last) ↦ ground (arith, last, e, find-set_deleted id seen table)
]

confirm_absence-other :
    (chrono : Chrono) (id j : Text) (table : Table) (found : Option SnapshotDatabaseRow)
    → text_eq id j ≡ false
    → find (has_id j) (confirm_absence chrono id table found).1 ≡ find (has_id j) table
unfolding confirmed_absence_deleted_time parse_timestamp
confirm_absence-other chrono id j table none h = refl
confirm_absence-other chrono id j table (some row) h = elim (Option-cases row.last_seen) [
  | inl unseen ↦ ground (arith, unseen)
  | inr (seen, last) ↦ ground (arith, last, find-set_deleted_other id j seen table h)
]

-- What every row reads after a confirmed absence: the row of the entry that is absent gets the time
-- of its last sight for its tombstone, if it has one that is a time and no tombstone yet, and keeps
-- all else; a tombstone that is there stays, and the rows of all other entries are as they were.
pub read-record_confirmed_absence :
    (chrono : Chrono) (id j : Text) (table : Table)
    → (read_snapshot_row j (record_confirmed_absence chrono id (some table)).1).0
      ≡ ok (
          if text_eq id j
          then map_row (entombed chrono) (find (has_id j) table)
          else find (has_id j) table)
unfolding record_confirmed_absence read_snapshot_row parse_timestamp
read-record_confirmed_absence chrono id j table = elim (Bool-cases (text_eq id j)) [
  | inl e ↦ rw e (
      ap ok (
        subst
          (λ i.
            find (has_id i) (confirm_absence chrono id table (find (has_id id) table)).1
            ≡ map_row (entombed chrono) (find (has_id i) table))
          ((text_eq_iff id j).0 e)
          (confirm_absence-same chrono id table (find (has_id id) table) refl)))
  | inr e ↦ rw e (ap ok (confirm_absence-other chrono id j table (find (has_id id) table) e))
]
