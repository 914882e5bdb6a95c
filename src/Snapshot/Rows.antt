-- ===== src/Snapshot/Rows.antt =====
-- The row operations of proj/subpjx/SnapshotDatabase/src/imp.rs, each SQL statement by its meaning
-- on the table of rows. A database that cannot be opened is `none`: each operation then fails and
-- changes nothing.
pub mod Laws
use kitchensync.Base.{
  ℕ, zero, suc, ◌+◌, ℤ, pos, negsuc, Text, text_eq, Bool, true, false, ◌&&◌, ◌||◌, not, Option,
  none, some, List, [], ◌∷◌, ◌++◌, map, any, filter, find, length, Result, ok, err, ◌>>=◌, map_err,
  leb, ltb, ◌==◌, if◌then◌else◌,
}
use kitchensync.Format.Types.{
  FormatRulesTimestamp, FormatRulesDeletionEstimateUpdate, write, no_write,
  FormatRulesValidationError,
}
use kitchensync.Format.Time.{
  Chrono, parse_timestamp, timestamp_text, confirmed_absence_deleted_time,
  displacement_deleted_time, displacement_cascade_deleted_time,
}
use kitchensync.Snapshot.Types.{
  SnapshotDatabaseEntryIdentity, SnapshotDatabaseRow, SnapshotDatabaseError,
  SnapshotDatabaseCleanupResult, local_database_error,
}

abbrev pub Table : Type 0
Table = List SnapshotDatabaseRow

abbrev pub Database : Type 0
Database = Option Table

abbrev pub database_error : SnapshotDatabaseError
database_error = record { kind = local_database_error }

abbrev pub Reply : Type 0 → Type 0
Reply A = Result A SnapshotDatabaseError × Database

-- `open_database` and then the statements.
abbrev pub with_open :
    {A : Type 0} → (Table → Result A SnapshotDatabaseError × Table) → Database → Reply A
with_open f none = (err database_error, none)
with_open f (some table) = let (r, table') = f table in (r, some table')

-- `WHERE id = ?`
abbrev pub has_id : Text → SnapshotDatabaseRow → Bool
has_id id row = text_eq row.id id

abbrev pub is_null : Option Text → Bool
is_null none = true
is_null (some _) = false

-- `<` on texts: SQLite's binary collation
unfoldable pub text_lt : Text → Text → Bool
text_lt s [] = false
text_lt [] (b ∷ t) = true
text_lt (a ∷ s) (b ∷ t) = ltb a b || (a == b && text_lt s t)

-- `INSERT … ON CONFLICT(id) DO UPDATE SET` every column
unfoldable pub upsert : SnapshotDatabaseRow → Table → Table
upsert row [] = row ∷ []
upsert row (x ∷ table) = if text_eq x.id row.id then row ∷ table else x ∷ upsert row table

-- The same, where the update leaves `last_seen` alone
unfoldable pub upsert_intended : SnapshotDatabaseRow → Table → Table
upsert_intended row [] = row ∷ []
upsert_intended row (x ∷ table) =
    if text_eq x.id row.id
    then record row { last_seen = x.last_seen } ∷ table
    else x ∷ upsert_intended row table

-- `UPDATE … WHERE`
unfoldable pub update_where :
    (SnapshotDatabaseRow → Bool) → (SnapshotDatabaseRow → SnapshotDatabaseRow) → Table → Table
update_where p f [] = []
update_where p f (x ∷ table) = (if p x then f x else x) ∷ update_where p f table

-- `DELETE … WHERE`, with the number of rows removed
unfoldable pub delete_where : (SnapshotDatabaseRow → Bool) → Table → Table × ℕ
delete_where p table = (filter (λ row. not (p row)) table, length (filter p table))

unfoldable pub upsert_present_row :
    SnapshotDatabaseEntryIdentity → Text → ℤ → Text → Database → Reply (Unit {0})
unfolding upsert
upsert_present_row entry mod_time byte_size last_seen = with_open λ table. (
  ok tt,
  upsert
      (record {
        id = entry.id;
        parent_id = some entry.parent_id;
        basename = entry.basename;
        mod_time = mod_time;
        byte_size = byte_size;
        last_seen = some last_seen;
        deleted_time = none;
      })
      table,
)

unfoldable pub read_snapshot_row : Text → Database → Reply (Option SnapshotDatabaseRow)
read_snapshot_row entry_id = with_open λ table. (ok (find (has_id entry_id) table), table)

unfoldable pub record_listed_file :
    SnapshotDatabaseEntryIdentity → Text → ℤ → Text → Database → Reply (Unit {0})
unfolding upsert_present_row
record_listed_file entry mod_time byte_size last_seen =
    upsert_present_row entry mod_time byte_size last_seen

unfoldable pub record_listed_directory :
    SnapshotDatabaseEntryIdentity → Text → Text → Database → Reply (Unit {0})
unfolding upsert_present_row
record_listed_directory entry mod_time last_seen =
    upsert_present_row entry mod_time (negsuc 0) last_seen

unfoldable pub record_confirmed_file :
    SnapshotDatabaseEntryIdentity → Text → ℤ → Text → Database → Reply (Unit {0})
unfolding upsert_present_row
record_confirmed_file entry mod_time byte_size last_seen =
    upsert_present_row entry mod_time byte_size last_seen

unfoldable pub record_intended_file_copy :
    SnapshotDatabaseEntryIdentity → Text → ℤ → Database → Reply (Unit {0})
unfolding upsert_intended
record_intended_file_copy entry mod_time byte_size = with_open λ table. (
  ok tt,
  upsert_intended
      (record {
        id = entry.id;
        parent_id = some entry.parent_id;
        basename = entry.basename;
        mod_time = mod_time;
        byte_size = byte_size;
        last_seen = none;
        deleted_time = none;
      })
      table,
)

unfoldable pub record_completed_file_copy : Text → Text → Database → Reply (Unit {0})
unfolding update_where
record_completed_file_copy entry_id last_seen = with_open λ table.
    (ok tt, update_where (has_id entry_id) (λ row. record row { last_seen = some last_seen }) table)

unfoldable pub record_created_directory :
    SnapshotDatabaseEntryIdentity → Text → Text → Database → Reply (Unit {0})
unfolding upsert_present_row
record_created_directory entry mod_time last_seen =
    upsert_present_row entry mod_time (negsuc 0) last_seen

-- `WHERE id = ? AND deleted_time IS NULL`
abbrev pub untombstoned_id : Text → SnapshotDatabaseRow → Bool
untombstoned_id id row = text_eq row.id id && is_null row.deleted_time

abbrev pub set_deleted : Text → SnapshotDatabaseRow → SnapshotDatabaseRow
set_deleted time row = record row { deleted_time = some time }

module _ (chrono : Chrono) where
  abbrev pub parse_row_time : Text → Result FormatRulesTimestamp SnapshotDatabaseError
  parse_row_time text = map_err (λ _. database_error) (parse_timestamp chrono text)

  -- `transpose` of the optional deletion time
  abbrev pub parse_optional_time :
      Option Text → Result (Option FormatRulesTimestamp) SnapshotDatabaseError
  parse_optional_time none = ok none
  parse_optional_time (some text) = parse_row_time text >>= λ t. ok (some t)

  abbrev pub write_absence : Text → FormatRulesDeletionEstimateUpdate → Table → Table
  write_absence id no_write table = table
  write_absence id (write timestamp) table =
      update_where (untombstoned_id id) (set_deleted (timestamp_text chrono timestamp)) table

  abbrev pub parse_absence :
      Text → Option Text → Result FormatRulesDeletionEstimateUpdate SnapshotDatabaseError
  parse_absence last_seen deleted_time = do
    parsed_last_seen ← parse_row_time last_seen
    parsed_deleted_time ← parse_optional_time deleted_time
    ok (confirmed_absence_deleted_time parsed_last_seen parsed_deleted_time)

  abbrev pub finish_absence :
      Text
      → Table
      → Result FormatRulesDeletionEstimateUpdate SnapshotDatabaseError
      → Result (Unit {0}) SnapshotDatabaseError × Table
  finish_absence id table (err e) = (err e, table)
  finish_absence id table (ok update) = (ok tt, write_absence id update table)

  abbrev pub confirm_absence :
      Text → Table → Option SnapshotDatabaseRow → Result (Unit {0}) SnapshotDatabaseError × Table
  confirm_absence id table none = (ok tt, table)
  confirm_absence id table (some row) = elim row.last_seen [
    | none ↦ (ok tt, table)
    | some last_seen ↦ finish_absence id table (parse_absence last_seen row.deleted_time)
  ]

  unfoldable pub record_confirmed_absence : Text → Database → Reply (Unit {0})
  unfolding update_where confirmed_absence_deleted_time
  record_confirmed_absence entry_id =
      with_open λ table. confirm_absence entry_id table (find (has_id entry_id) table)
