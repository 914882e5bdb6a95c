-- ===== src/Snapshot/Cascade.antt =====
-- `record_successful_displacement` and `cleanup_snapshot_rows` of
-- proj/subpjx/SnapshotDatabase/src/imp.rs.
pub mod Laws
pub mod Displacement
use kitchensync.Base.{
  ℕ, zero, suc, ◌+◌, Text, text_eq, Bool, true, false, ◌&&◌, ◌||◌, not, Option, none, some, List,
  [], ◌∷◌, ◌++◌, map, any, filter, find, Result, ok, err, ◌>>=◌, if◌then◌else◌,
}
use kitchensync.Format.Time.{
  Chrono, timestamp_text, displacement_deleted_time, displacement_cascade_deleted_time,
}
use kitchensync.Snapshot.Types.{
  SnapshotDatabaseRow, SnapshotDatabaseError, SnapshotDatabaseCleanupResult,
}
use kitchensync.Snapshot.Rows.{
  Table, Database, database_error, Reply, with_open, has_id, is_null, text_lt, update_where,
  delete_where, untombstoned_id, set_deleted, parse_row_time,
}

-- `s.parent_id = st.id` for some id of the level, `WHERE s.deleted_time IS NULL`
abbrev pub is_child_of : List Text → SnapshotDatabaseRow → Bool
is_child_of level row = elim row.parent_id [
  | none ↦ false
  | some parent ↦ any (text_eq parent) level && is_null row.deleted_time
]

abbrev pub children : Table → List Text → List Text
children table level = map (λ row. row.id) (filter (is_child_of level) table)

-- The recursive query `subtree`, one generation at a time. A query that never ends, through a row
-- that is its own ancestor, has no result for any fuel.
unfoldable pub subtree : ℕ → Table → List Text → Option (List Text)
subtree fuel table [] = some []
subtree zero table (id ∷ level) = none
subtree (suc fuel) table (id ∷ level) = elim (subtree fuel table (children table (id ∷ level))) [
  | none ↦ none
  | some below ↦ some ((id ∷ level) ++ below)
]

-- `WHERE deleted_time IS NULL AND id IN (SELECT id FROM subtree)`
abbrev pub in_subtree : List Text → SnapshotDatabaseRow → Bool
in_subtree ids row = is_null row.deleted_time && any (text_eq row.id) ids

unfoldable pub tombstone_subtree : ℕ → Text → Text → Table → Option Table
unfolding subtree update_where
tombstone_subtree fuel id time table = elim (subtree fuel table (id ∷ [])) [
  | none ↦ none
  | some ids ↦ some (update_where (in_subtree ids) (set_deleted time) table)
]

module _ (chrono : Chrono) (fuel : ℕ) where
  unfoldable pub tombstone : Bool → Text → Text → Table → Option Table
  unfolding tombstone_subtree
  tombstone true id time table = tombstone_subtree fuel id time table
  tombstone false id time table = some (update_where (untombstoned_id id) (set_deleted time) table)

  abbrev pub reply_done : Option Table → Option (Reply (Unit {0}))
  reply_done none = none
  reply_done (some table) = some (ok tt, some table)

  abbrev pub displace_seen : Bool → Text → Text → Table → Option (Reply (Unit {0}))
  displace_seen is_directory id last_seen table = elim (parse_row_time chrono last_seen) [
    | err e ↦ some (err e, some table)
    | ok parsed_last_seen ↦
        let displaced_deleted_time = displacement_deleted_time parsed_last_seen in
        let cascade_timestamp = displacement_cascade_deleted_time displaced_deleted_time in
        reply_done (
          tombstone is_directory id
            (timestamp_text chrono
              (if is_directory then cascade_timestamp else displaced_deleted_time))
            table)
  ]

  abbrev pub displace_row :
      Bool → Text → Table → Option SnapshotDatabaseRow → Option (Reply (Unit {0}))
  displace_row is_directory id table none = some (ok tt, some table)
  displace_row is_directory id table (some row) = elim row.last_seen [
    | none ↦ some (ok tt, some table)
    | some last_seen ↦ displace_seen is_directory id last_seen table
  ]

  -- `none` if the fuel runs out in the recursive query
  unfoldable pub record_successful_displacement : Text → Bool → Database → Option (Reply (Unit {0}))
  unfolding tombstone
  record_successful_displacement entry_id is_directory none = some (err database_error, none)
  record_successful_displacement entry_id is_directory (some table) =
      displace_row is_directory entry_id table (find (has_id entry_id) table)

-- `deleted_time IS NOT NULL AND deleted_time < ?`
abbrev pub is_old_tombstone : Text → SnapshotDatabaseRow → Bool
is_old_tombstone limit row = elim row.deleted_time [ none ↦ false | some time ↦ text_lt time limit ]

-- `id = ? AND deleted_time IS NULL AND (last_seen IS NULL OR last_seen < ?)`
abbrev pub is_stale : Text → Text → SnapshotDatabaseRow → Bool
is_stale limit id row =
    text_eq row.id id
    && is_null row.deleted_time
    && elim row.last_seen [ none ↦ true | some time ↦ text_lt time limit ]

unfoldable pub remove_stale : Text → List Text → Table → Table × ℕ
unfolding delete_where
remove_stale limit [] table = (table, 0)
remove_stale limit (id ∷ ids) table =
    let (rest, removed) = delete_where (is_stale limit id) table in
    let (final, more) = remove_stale limit ids rest in (final, removed + more)

unfoldable pub cleanup_snapshot_rows :
    Text → List Text → Database → Reply SnapshotDatabaseCleanupResult
unfolding remove_stale text_lt
cleanup_snapshot_rows older_than_timestamp obsolete_untombstoned_ids = with_open λ table.
    let (kept, tombstones) = delete_where (is_old_tombstone older_than_timestamp) table in
    let (final, stale) = remove_stale older_than_timestamp obsolete_untombstoned_ids kept in
    (ok (record { removed_tombstone_rows = tombstones; removed_stale_rows = stale }), final)
